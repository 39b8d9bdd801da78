-- ===== src/Drawing.antt =====
-- The calls of the 2D context of a canvas that scripts/gen-og-image.js and BackgroundCanvas.jsx make,
-- as the commands that they send. What the platform draws for them is not modelled.
use tabulum.Prelude.{String}

-- A colour: a text, or the gold of the site with an alpha, `'rgba(210, 190, 160, ' + alpha + ')'`.
pub data Color (R : Type 0) : Type 0 where
  named : String → Color R
  gold : R → Color R

pub data Style (R : Type 0) : Type 0 where
  plain : Color R → Style R
  -- a linear gradient between two points, of three stops
  gradient : R → R → R → R → (R × Color R) → (R × Color R) → (R × Color R) → Style R

pub data Command (R : Type 0) : Type 0 where
  fill_style : Style R → Command R
  stroke_style : Style R → Command R
  line_width : R → Command R
  clear_rect : R → R → R → R → Command R
  fill_rect : R → R → R → R → Command R
  begin_path : Command R
  move_to : R → R → Command R
  line_to : R → R → Command R
  -- a whole circle
  arc : R → R → R → Command R
  stroke : Command R
  fill : Command R
  font : String → Command R
  letter_spacing : String → Command R
  fill_text : String → R → R → Command R
