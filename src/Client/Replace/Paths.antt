-- ===== src/Client/Replace/Paths.antt =====
-- ReplacePath of client/fsys/replace.go, part by part.
use friend_net.Prelude.{
  ℕ, ◌≡◌, refl, sym, subst, ◌⊎◌, true, false, List, [], ◌∷◌, map, All, Lacks, split, join, inl, inr,
  arith,
}
use friend_net.Prelude.Split.{split_cons, split-join}
use friend_net.Client.Replace.{replace_part, replace_path, strict_replacer}
use friend_net.Client.Replace.Safe.{is_forbidden, IsSafe, strict_replacer-IsSafe}

forbidden-Lacks :
    (sep : ℕ) (s : List ℕ)
    → is_forbidden sep ≡ true
    → All (λ r. is_forbidden r ≡ false) s
    → Lacks sep s
forbidden-Lacks sep [] f h = tt
forbidden-Lacks sep (r ∷ s) f h = (λ e. ground (arith, f, h.0, e), forbidden-Lacks sep s f h.1)

module _ (unicode_upper : ℕ → ℕ) where
  -- Empty, or a safe name.
  abbrev pub IsPart : List ℕ → Type 0
  IsPart s = (s ≡ []) ⊎ IsSafe unicode_upper s

  replace_part-IsPart : (s : List ℕ) → IsPart (replace_part (strict_replacer unicode_upper) s)
  replace_part-IsPart [] = inl refl
  replace_part-IsPart (c ∷ s) = inr (strict_replacer-IsSafe unicode_upper (c ∷ s)).0

  IsPart-Lacks : (sep : ℕ) (s : List ℕ) → is_forbidden sep ≡ true → IsPart s → Lacks sep s
  IsPart-Lacks sep s f (inl e) = subst (Lacks sep) (sym e) tt
  IsPart-Lacks sep s f (inr h) = forbidden-Lacks sep s f h.allowed

  parts-IsPart :
      (ps : List (List ℕ)) → All IsPart (map (replace_part (strict_replacer unicode_upper)) ps)
  parts-IsPart [] = tt
  parts-IsPart (p ∷ ps) = (replace_part-IsPart p, parts-IsPart ps)

  parts-Lacks :
      (sep : ℕ) (ps : List (List ℕ)) → is_forbidden sep ≡ true → All IsPart ps → All (Lacks sep) ps
  parts-Lacks sep [] f h = tt
  parts-Lacks sep (p ∷ ps) f h = (IsPart-Lacks sep p f h.0, parts-Lacks sep ps f h.1)

  split-replaced :
      (sep : ℕ) (ps : List (List ℕ)) (p : List ℕ) (rest : List (List ℕ))
      → is_forbidden sep ≡ true
      → ps ≡ p ∷ rest
      → split (join (map (replace_part (strict_replacer unicode_upper)) ps) sep) sep
        ≡ map (replace_part (strict_replacer unicode_upper)) ps
  split-replaced sep ps p rest f e =
      let r = replace_part (strict_replacer unicode_upper) in
      rw e (
        split-join sep (r p) (map r rest)
          (parts-Lacks sep (map r (p ∷ rest)) f (parts-IsPart (p ∷ rest))))

  -- With a separator that no safe name holds, as a slash or a backslash, ReplacePath with StrictReplacer
  -- gives a path with as many parts as before, of which each is the replaced part, and is empty or a
  -- safe name.
  pub replace_path_lem :
      (sep : ℕ) (path : List ℕ)
      → is_forbidden sep ≡ true
      → (split (replace_path (strict_replacer unicode_upper) sep path) sep
          ≡ map (replace_part (strict_replacer unicode_upper)) (split path sep))
        × All IsPart (split (replace_path (strict_replacer unicode_upper) sep path) sep)
  unfolding replace_path
  replace_path_lem sep path f =
      let (p, rest, e) = split_cons sep path in
      let parts = split-replaced sep (split path sep) p rest f e in
      (parts, subst (All IsPart) (sym parts) (parts-IsPart (split path sep)))
