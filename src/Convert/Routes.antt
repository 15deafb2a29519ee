-- ===== src/Convert/Routes.antt =====
-- convert/routed.go: the converter that is chosen for a file.
use amoxtli.Common.{
  ◌≡◌, refl, ap, ◌⊎◌, inl, inr, true, false, String, none, List, [], ◌∷◌, ◌++◌, Bool-cases,
}
use amoxtli.Common.Keyed.{contains}
use amoxtli.Common.Lists.{All}
use amoxtli.Convert.{Outcome, unconverted, Converter, without_partial, route, new_routed}

module _ {W R E : Type 0} (not_supported : E) (extension : String → String) (filename : String)
    (w : W) where
  -- How a file is converted: by the first converter that supports its extension, or by none.
  abbrev pub Routed : List (Converter W R E) → Outcome R E × W → Type 0
  Routed cs out =
      ((front : List (Converter W R E)) × (c : Converter W R E) × (back : List (Converter W R E))
        × (cs ≡ front ++ (c ∷ back))
        × All (λ x. contains x.supported_extensions (extension filename) ≡ false) front
        × (contains c.supported_extensions (extension filename) ≡ true)
        × (out ≡ without_partial not_supported extension (c.convert filename w)))
      ⊎ (All (λ x. contains x.supported_extensions (extension filename) ≡ false) cs
          × (out ≡ (unconverted none not_supported, w)))

  -- Routed converts a file by the first of its converters that supports the extension, and refuses
  -- it, with nothing read or changed, where none does.
  pub route-Routed :
      (cs : List (Converter W R E))
      → Routed cs ((new_routed not_supported extension cs).convert filename w)
  unfolding new_routed route
  route-Routed [] = inr (tt, refl)
  route-Routed (c ∷ cs) = elim (Bool-cases (contains c.supported_extensions (extension filename))) [
    | inl b ↦ inl ([], c, cs, refl, tt, b, rw b refl)
    | inr b ↦ elim (route-Routed cs) [
      | inl (front, d, back, e, h, s, o) ↦
          inl (c ∷ front, d, back, ap (λ l. c ∷ l) e, (b, h), s, rw b o)
      | inr (h, o) ↦ inr ((b, h), rw b o)
    ]
  ]
