-- ===== src/Protocol/Amf0/Table.antt =====
-- SrsUnSortedHashtable of src/protocol/srs_protocol_amf0.cpp: keys stay distinct, a lookup finds
-- the last value set, and a table built entry by entry is the table.
use srs_simple.Base.{
  ℕ, ◌≡◌, refl, sym, ◌∙◌, ap, false, Option, none, some, List, [], ◌∷◌, if◌then◌else◌, same,
  same→eq, arith, Bool-cases, Option-cases, subst, ◌⊎◌, inl, inr,
}
use srs_simple.Protocol.Amf0.{
  Any, Properties, nil, property, erase_first, push_back, push_value, set, get_property,
}

-- No key occurs twice.
abbrev pub Distinct : Properties → Type 0
Distinct nil = Unit {0}
Distinct (property k v ps) = (get_property k ps ≡ none) × Distinct ps

-- The table after setting the entries of another one by one.
unfoldable pub rebuild : Properties → Properties → Properties
rebuild acc nil = acc
rebuild acc (property k v ps) = rebuild (set k (some v) acc) ps

same-sym : (xs ys : List ℕ) → same xs ys ≡ same ys xs
same-sym [] [] = refl
same-sym [] (y ∷ ys) = refl
same-sym (x ∷ xs) [] = refl
same-sym (x ∷ xs) (y ∷ ys) = ground (arith, same-sym xs ys)

get-erase_ne :
    (j k : List ℕ) (ps : Properties)
    → same j k ≡ false
    → get_property j (erase_first k ps) ≡ get_property j ps
unfolding get_property erase_first
get-erase_ne j k nil h = refl
get-erase_ne j k (property n v ps) h =
    ground (arith, get-erase_ne j k ps, same→eq k n, same-sym j k)

get-push_back :
    (j k : List ℕ) (v : Any) (ps : Properties)
    → get_property j ps ≡ none
    → get_property j (push_back ps k v) ≡ (if same k j then some v else none)
unfolding get_property push_back
get-push_back j k v nil h = refl
get-push_back j k v (property n w ps) h = ground (arith, get-push_back j k v ps)

get-push_back-some :
    (j k : List ℕ) (v w : Any) (ps : Properties)
    → get_property j ps ≡ some w
    → get_property j (push_back ps k v) ≡ some w
unfolding get_property push_back
get-push_back-some j k v w nil h = cc
get-push_back-some j k v w (property n u ps) h = ground (arith, get-push_back-some j k v w ps)

get-erase_self :
    (k : List ℕ) (ps : Properties) → Distinct ps → get_property k (erase_first k ps) ≡ none
unfolding get_property erase_first
get-erase_self k nil d = refl
get-erase_self k (property n v ps) d =
    ground (arith, get-erase_self k ps d.1, same→eq k n, same-sym k n)

erase-Distinct : (k : List ℕ) (ps : Properties) → Distinct ps → Distinct (erase_first k ps)
unfolding erase_first
erase-Distinct k nil d = tt
erase-Distinct k (property n v ps) d = elim (Bool-cases (same k n)) [
  | inl hit ↦ rw hit d.1
  | inr miss ↦ rw miss (get-erase_ne n k ps (same-sym n k ∙ miss) ∙ d.0, erase-Distinct k ps d.1)
]

push_back-Distinct :
    (k : List ℕ) (v : Any) (ps : Properties)
    → Distinct ps
    → get_property k ps ≡ none
    → Distinct (push_back ps k v)
unfolding push_back get_property
push_back-Distinct k v nil d h = (refl, tt)
push_back-Distinct k v (property n w ps) d h = elim (Bool-cases (same n k)) [
  | inl hit ↦ cc (rw hit at h)
  | inr miss ↦ (
    get-push_back n k v ps d.0 ∙ rw (same-sym k n ∙ miss),
    push_back-Distinct k v ps d.1 (rw miss at h),
  )
]

push_value-Distinct :
    (k : List ℕ) (v : Option Any) (ps : Properties)
    → Distinct ps
    → get_property k ps ≡ none
    → Distinct (push_value ps k v)
unfolding push_value
push_value-Distinct k none ps d h = d
push_value-Distinct k (some v) ps d h = push_back-Distinct k v ps d h

-- set() keeps the keys of a table distinct, also where it only removes (a NULL value).
pub set-Distinct :
    (k : List ℕ) (v : Option Any) (ps : Properties) → Distinct ps → Distinct (set k v ps)
unfolding set
set-Distinct k v ps d =
    push_value-Distinct k v (erase_first k ps) (erase-Distinct k ps d) (get-erase_self k ps d)

get-push_value :
    (j k : List ℕ) (v : Option Any) (ps : Properties)
    → get_property j ps ≡ none
    → get_property j (push_value ps k v) ≡ (if same k j then v else none)
unfolding push_value
get-push_value j k none ps h = ground arith
get-push_value j k (some v) ps h = get-push_back j k v ps h

get-push_value-some :
    (j k : List ℕ) (v : Option Any) (w : Any) (ps : Properties)
    → get_property j ps ≡ some w
    → get_property j (push_value ps k v) ≡ some w
unfolding push_value
get-push_value-some j k none w ps h = h
get-push_value-some j k (some v) w ps h = get-push_back-some j k v w ps h

-- After set(k, v), get_property answers v (NULL for a NULL value) at k, and as before elsewhere.
pub get_property-set :
    (j k : List ℕ) (v : Option Any) (ps : Properties)
    → Distinct ps
    → get_property j (set k v ps) ≡ (if same k j then v else get_property j ps)
unfolding set
get_property-set j k v ps d = elim (Bool-cases (same k j)) [
  | inl hit ↦
      let e : k ≡ j = same→eq k j hit in
      get-push_value j k v (erase_first k ps)
        (subst (λ q. get_property q (erase_first k ps) ≡ none) e (get-erase_self k ps d))
      ∙ rw hit
  | inr miss ↦ rw miss (elsewhere (Option-cases (get_property j ps)) (same-sym j k ∙ miss) miss)
]
  where
    elsewhere :
        ((get_property j ps ≡ none) ⊎ ((w : Any) × (get_property j ps ≡ some w)))
        → same j k ≡ false
        → same k j ≡ false
        → get_property j (push_value (erase_first k ps) k v) ≡ get_property j ps
    elsewhere (inl e) h f =
        get-push_value j k v (erase_first k ps) (get-erase_ne j k ps h ∙ e) ∙ rw f (sym e)
    elsewhere (inr (w, e)) h f =
        get-push_value-some j k v w (erase_first k ps) (get-erase_ne j k ps h ∙ e) ∙ sym e

-- The entries of `ps` behind those of `acc`.
join : Properties → Properties → Properties
join nil ps = ps
join (property k v acc) ps = property k v (join acc ps)

join-nil : (acc : Properties) → join acc nil ≡ acc
unfolding join
join-nil nil = refl
join-nil (property k v acc) = ap (property k v) (join-nil acc)

join-push_back :
    (acc : Properties) (k : List ℕ) (v : Any) (ps : Properties)
    → join (push_back acc k v) ps ≡ join acc (property k v ps)
unfolding join push_back
join-push_back nil k v ps = refl
join-push_back (property n w acc) k v ps = ap (property n w) (join-push_back acc k v ps)

erase_absent : (k : List ℕ) (ps : Properties) → get_property k ps ≡ none → erase_first k ps ≡ ps
unfolding get_property erase_first
erase_absent k nil h = refl
erase_absent k (property n v ps) h = ground (arith, erase_absent k ps, same-sym k n)

-- The keys of `ps` are new to `acc`.
abbrev New : Properties → Properties → Type 0
New acc nil = Unit {0}
New acc (property k v ps) = (get_property k acc ≡ none) × New acc ps

New-push_back :
    (acc : Properties) (k : List ℕ) (v : Any) (ps : Properties)
    → get_property k ps ≡ none
    → New acc ps
    → New (push_back acc k v) ps
unfolding get_property
New-push_back acc k v nil h n = tt
New-push_back acc k v (property j w ps) h n = elim (Bool-cases (same j k)) [
  | inl hit ↦ cc (rw hit at h)
  | inr miss ↦ (
    get-push_back j k v acc n.0 ∙ rw (same-sym k j ∙ miss),
    New-push_back acc k v ps (rw miss at h) n.1,
  )
]

rebuild-New : (acc ps : Properties) → New acc ps → Distinct ps → rebuild acc ps ≡ join acc ps
unfolding rebuild set push_value
rebuild-New acc nil n d = sym (join-nil acc)
rebuild-New acc (property k v ps) n d = rw (erase_absent k acc n.0) (
    rebuild-New (push_back acc k v) ps (New-push_back acc k v ps d.0 n.1) d.1
    ∙ join-push_back acc k v ps)

New-nil : (ps : Properties) → New nil ps
unfolding get_property
New-nil nil = tt
New-nil (property k v ps) = (refl, New-nil ps)

-- Setting the entries of a table one by one, from the empty table, gives the table.
pub rebuild-nil_lem : (ps : Properties) → Distinct ps → rebuild nil ps ≡ ps
unfolding join
rebuild-nil_lem ps d = rebuild-New nil ps (New-nil ps) d
