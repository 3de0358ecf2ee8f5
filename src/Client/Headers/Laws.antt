-- ===== src/Client/Headers/Laws.antt =====
-- pkg/client/client.go: which value a header field has in the end.
use warp_stream.Base.{
  ◌≡◌, refl, ap, true, false, [], ◌∷◌, map, Text, text_eq, text_eq_iff, to_lower, equal_fold, All,
  Bool-cases, inl, inr, ◌∙◌,
}
use warp_stream.Client.Headers.{Fields, remove, set, get, set_all}

pub equal_fold_sound : (s t : Text) → equal_fold s t ≡ true → map to_lower s ≡ map to_lower t
unfolding equal_fold
equal_fold_sound s t h = (text_eq_iff (map to_lower s) (map to_lower t)).0 h

equal_fold_of : (s t : Text) → map to_lower s ≡ map to_lower t → equal_fold s t ≡ true
unfolding equal_fold
equal_fold_of s t h = (text_eq_iff (map to_lower s) (map to_lower t)).1 h

-- Names that are the same but for their case are both a third name or neither is.
equal_fold_replace : (i j k : Text) → equal_fold i j ≡ true → equal_fold i k ≡ equal_fold j k
unfolding equal_fold
equal_fold_replace i j k h = ap (λ s. text_eq s (map to_lower k)) (equal_fold_sound i j h)

get-remove : (j k : Text) (h : Fields) → equal_fold j k ≡ false → get k (remove j h) ≡ get k h
unfolding get remove
get-remove j k [] e = refl
get-remove j k ((i, v) ∷ h) e = elim (Bool-cases (equal_fold i j)) [
  | inl same ↦ rw (same, equal_fold_replace i j k same, e) (get-remove j k h e)
  | inr other ↦
      rw (other, get)
        (elim (Bool-cases (equal_fold i k)) [
          | inl hit ↦ rw hit
          | inr miss ↦ rw miss (get-remove j k h e)
        ])
]

pub get-set_self : (k v : Text) (h : Fields) → get k (set k v h) ≡ v
unfolding get set
get-set_self k v h = rw (equal_fold_of k k refl)

pub get-set_other :
    (j k v : Text) (h : Fields) → equal_fold j k ≡ false → get k (set j v h) ≡ get k h
unfolding get set
get-set_other j k v h e = rw e (get-remove j k h e)

-- None of the entries has this name.
abbrev pub Avoid : Text → Fields → Type 0
Avoid k = All (λ e. equal_fold e.0 k ≡ false)

pub get-set_all :
    (k : Text) (entries h : Fields) → Avoid k entries → get k (set_all entries h) ≡ get k h
unfolding set_all
get-set_all k [] h a = refl
get-set_all k ((j, v) ∷ entries) h a =
    get-set_all k entries (set j v h) a.1 ∙ get-set_other j k v h a.0
