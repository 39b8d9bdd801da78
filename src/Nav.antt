-- ===== src/Nav.antt =====
-- tabulum.org/observe-app/src/components/Nav.jsx: the bar of links and the menu for small screens.
use tabulum.Prelude.{String, List, [], ◌∷◌, Bool, true, false}

pub record Link : Type 0 where
  pub href : String
  pub label : String

abbrev link : String → String → Link
link href label = record { href = href; label = label }

abbrev pub logo : Link
logo = link "/" "Tabulum"

abbrev pub left_links : List Link
left_links =
    link "/connect" "Connect"
    ∷ link "/connect-zh" "连接"
    ∷ link "/operator-guide" "Operator Guide"
    ∷ []

abbrev pub right_links : List Link
right_links =
    link "/observe" "Observe"
    ∷ link "/terms" "Terms"
    ∷ link "/api-docs" "API Docs"
    ∷ link "https://github.com/tabulum-org/tabulum" "GitHub"
    ∷ []

abbrev pub menu_links : List Link
menu_links =
    link "/connect" "Connect"
    ∷ link "/connect-zh" "连接"
    ∷ link "/operator-guide" "Operator Guide"
    ∷ link "/observe" "Observe"
    ∷ link "/terms" "Terms"
    ∷ link "/api-docs" "API Docs"
    ∷ link "https://github.com/tabulum-org/tabulum" "GitHub"
    ∷ []

-- A click on the button, and a click anywhere in the menu.
pub data Action : Type 0 where
  press_button press_menu : Action

-- `menuOpen`
unfoldable pub act : Action → Bool → Bool
act press_button open_now = true
act press_menu open_now = false

abbrev pub menu_class : Bool → String
menu_class true = "mobile-menu open"
menu_class false = "mobile-menu"
