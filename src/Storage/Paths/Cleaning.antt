-- ===== src/Storage/Paths/Cleaning.antt =====
-- Joining elements that are plain names, some of them perhaps empty.
use automq_operator.Base.{
  String, Bool, false, List, [], ◌∷◌, ◌≡◌, ◌≢◌, refl, ap, sym, ◌∙◌, ◌==◌, ◌<>◌, if◌then◌else◌, join,
  All, arith, eq_iff, inl, inr, ◌⊎◌, ◌++◌,
}
use automq_operator.Base.Pieces.{
  split_on, split_on-append, split_on-lacks, occurrences, separator_cons,
}
use automq_operator.Storage.Paths.{
  slash, is_rooted, resolve, clean_from, clean, join_from, path_join,
}
use mathlib.Core.List.{reverse}
use mathlib.Core.Bool.{false≢true}
use text.Mathlib.TextLemmas.{append_assoc, cons-append}
use automq_operator.Storage.Address.{is_empty}

-- An element of a path: it has no slash, is not empty, and is not one of the two special names.
abbrev pub IsName : String → Type 0
IsName s = (occurrences slash s ≡ 0) × (s ≢ "") × (s ≢ ".") × (s ≢ "..")

not_eq : (s t : String) → s ≢ t → (s == t) ≡ false
not_eq s t h = ground (arith, eq_iff s t)

resolve-IsName :
    (rooted : Bool) (stack : List String) (s : String)
    → IsName s
    → resolve rooted stack s ≡ s ∷ stack
unfolding resolve
resolve-IsName rooted stack s (h, a, b, c) =
    rw (not_eq s "" a, not_eq s "." b, not_eq s ".." c) refl

resolve-empty : (rooted : Bool) (stack : List String) → resolve rooted stack "" ≡ stack
unfolding resolve
resolve-empty rooted stack = refl

split_on-join :
    (p : String) (ps : List String)
    → All (λ s. occurrences slash s ≡ 0) (p ∷ ps)
    → split_on slash (join (p ∷ ps) "/") ≡ p ∷ ps
unfolding join
split_on-join p [] (h, hs) = split_on-lacks slash p h
split_on-join p (q ∷ ps) (h, hs) =
    rw (separator_cons "/" (join (q ∷ ps) "/"))
      (split_on-append "/" p _ h ∙ ap (λ l. p ∷ l) (split_on-join q ps hs))

join-glue : (a b : String) (ps : List String) → join ((a <> b) ∷ ps) "/" ≡ a <> join (b ∷ ps) "/"
unfolding join
join-glue a b [] = refl
join-glue a b (p ∷ ps) = append_assoc a b _

pub append-ne-nil : (s t : String) → s ≢ "" → s <> t ≢ ""
append-ne-nil String.[] t h e = h refl
append-ne-nil (String.◌∷◌ c s) t h e =
    false≢true (sym (ap is_empty (cons-append c s t)) ∙ ap is_empty e)

join_from-join : (p : String) (ps : List String) → p ≢ "" → join_from p ps ≡ join (p ∷ ps) "/"
unfolding join_from join
join_from-join p [] h = refl
join_from-join p (e ∷ es) h = rw (not_eq p "" h) (
    join_from-join (p <> "/" <> e) es (append-ne-nil p ("/" <> e) h)
    ∙ join-glue p ("/" <> e) es
    ∙ ap (λ t. p <> t) (join-glue "/" e es))

not_rooted : (s t : String) → IsName s → is_rooted (s <> t) ≡ false
not_rooted String.[] t h = absurd (h.1 refl)
not_rooted (String.◌∷◌ c s) t h = rw cons-append (ground (arith, h.0))

-- A path that is not rooted and has two elements at least, all of them plain names or empty.
clean-names :
    (p q : String) (ps kept : List String)
    → IsName p
    → All (λ s. occurrences slash s ≡ 0) (q ∷ ps)
    → reverse (clean_from false [] (p ∷ q ∷ ps)) ≡ p ∷ kept
    → join (p ∷ kept) "/" ≢ ""
    → clean (join (p ∷ q ∷ ps) "/") ≡ join (p ∷ kept) "/"
unfolding clean
clean-names p q ps kept h hs same full = rw (not_rooted p _ h) (
    rw (split_on-join p (q ∷ ps) (h.0, hs))
      (rw same (rw (not_eq (join (p ∷ kept) "/") "" full) refl)))

abbrev pub unless_empty : String → List String
unless_empty s = if s == "" then [] else s ∷ []

module _ (uri bucket folder key : String) (hu : IsName uri) (hb : IsName bucket)
    (hk : IsName key) where
  kept_folder :
      IsName folder ⊎ (folder ≡ "")
      → reverse (clean_from false [] (uri ∷ bucket ∷ folder ∷ key ∷ []))
        ≡ uri ∷ bucket ∷ (unless_empty folder ++ key ∷ [])
  unfolding clean_from
  kept_folder (inl h) =
      rw
        (
          resolve-IsName false [] uri hu,
          resolve-IsName false (uri ∷ []) bucket hb,
          resolve-IsName false (bucket ∷ uri ∷ []) folder h,
          resolve-IsName false (folder ∷ bucket ∷ uri ∷ []) key hk,
          not_eq folder "" h.1,
        )
        refl
  kept_folder (inr e) =
      rw
        (
          e,
          resolve-IsName false [] uri hu,
          resolve-IsName false (uri ∷ []) bucket hb,
          resolve-empty false (bucket ∷ uri ∷ []),
          resolve-IsName false (bucket ∷ uri ∷ []) key hk,
        )
        refl

  no_slash : IsName folder ⊎ (folder ≡ "") → occurrences slash folder ≡ 0
  no_slash (inl h) = h.0
  no_slash (inr e) = rw e refl

  -- The elements with slashes between them, without an empty one.
  pub path_join-names :
      IsName folder ⊎ (folder ≡ "")
      → path_join (uri ∷ bucket ∷ folder ∷ key ∷ [])
        ≡ join (uri ∷ bucket ∷ (unless_empty folder ++ key ∷ [])) "/"
  unfolding path_join
  path_join-names h =
      let parts = bucket ∷ folder ∷ key ∷ [] in
      let buf : join_from "" (uri ∷ parts) ≡ join (uri ∷ parts) "/" =
        unfold join_from in join_from-join uri parts hu.1 in
      rw (buf, not_eq (join (uri ∷ parts) "/") "" (unfold join in append-ne-nil uri _ hu.1))
        (clean-names uri bucket (folder ∷ key ∷ []) _ hu (hb.0, (no_slash h, (hk.0, tt)))
          (kept_folder h) (unfold join in append-ne-nil uri _ hu.1))
