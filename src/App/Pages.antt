-- ===== src/App/Pages.antt =====
-- Which page is shown.
use tabulum.Prelude.{
  ◌∙◌, sym, String, List, [], ◌∷◌, some, true, ◌≡◌, refl, arith, inl, inr, ◌<>◌, str_eq, Bool-cases,
  truthy, All, Option-cases,
}
use tabulum.Prelude.Objects.{elem, get_own, prototype_names, Found, own, inherited, undefined}
use tabulum.App.Routes.{Tool, tools, get_tool_from_path, is_found}
use tabulum.App.State.{App, initial, page, page_of_tool, blank}
use tabulum.App.Paths.{Agrees}

elem-of_inherited {ℓ} :
    {A : Type ℓ} (k : String) (t : List (String × A))
    → get_own k t ≡ inherited
    → elem k prototype_names ≡ true
unfolding get_own
elem-of_inherited k [] e = elim (Bool-cases (elem k prototype_names)) [
  | inl h ↦ h
  | inr h ↦ cc (rw (h, get_own) at e)
]
elem-of_inherited k ((j, v) ∷ t) e = elim (Bool-cases (str_eq j k)) [
  | inl same ↦ cc (rw (same, get_own) at e)
  | inr other ↦ elem-of_inherited k t (rw (other, get_own) at e)
]

found-of_path : (p t : String) → get_tool_from_path p ≡ some t → is_found (get_own t tools) ≡ true
unfolding get_tool_from_path
found-of_path p t e = ground arith

page-of_found : (f : Found Tool) → is_found f ≡ true → page_of_tool f ≡ blank → f ≡ inherited
page-of_found (own t) h e = cc
page-of_found inherited h e = refl
page-of_found undefined h e = cc

truthy-of_path : (p t : String) → get_tool_from_path p ≡ some t → truthy t ≡ true
unfolding get_tool_from_path
truthy-of_path p t e = ground arith

tool-of_blank :
    (a : App) (t : String)
    → a.active_tool ≡ some t
    → truthy t ≡ true
    → page a ≡ blank
    → page_of_tool (get_own t tools) ≡ blank
unfolding page
tool-of_blank a t h y e = ground arith

-- Where the active tool is the one that the address names, the page is blank only for a tool whose
-- name is inherited from Object.prototype.
pub page-blank :
    (a : App)
    → Agrees a
    → page a ≡ blank
    → (n : String) × (a.active_tool ≡ some n) × (elem n prototype_names ≡ true)
page-blank a v e = elim (Option-cases a.active_tool) [
  | inl n ↦ unfold page in cc (rw (n, page) at e)
  | inr (t, h) ↦
      let found = found-of_path a.pathname t (sym v ∙ h) in
      let shown = tool-of_blank a t h (truthy-of_path a.pathname t (sym v ∙ h)) e in
      (t, h, elem-of_inherited t tools (page-of_found (get_own t tools) found shown))
]

-- A name of Object.prototype as a path opens the page with neither the cards nor a tool.
pub prototype_path-blank : All (λ n. page (initial ("/observe/" <> n)) ≡ blank) prototype_names
unfolding page initial get_tool_from_path get_own elem
prototype_path-blank = (
  refl,
  (refl, (refl, (refl, (refl, (refl, (refl, (refl, (refl, (refl, (refl, (refl, tt))))))))))),
)
