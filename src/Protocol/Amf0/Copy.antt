-- ===== src/Protocol/Amf0/Copy.antt =====
-- SrsAmf0Any::copy of src/protocol/srs_protocol_amf0.cpp, which goes through c_str() for a string
-- and through set() for a table.
use srs_simple.Base.{ℕ, ◌≡◌, ◌≢◌, ◌++◌, refl, ap, ◌∙◌, ◌<◌, List, [], ◌∷◌, All, some, arith}
use srs_simple.Protocol.Amf0.{
  Any, Properties, string, boolean, number, null, undefined, object_eof, object, ecma_array, nil,
  property, set, c_str, copy, copy_into,
}
use srs_simple.Protocol.Amf0.Table.{rebuild, rebuild-nil_lem, Distinct}

-- No zero byte, so that c_str() shows the whole string.
abbrev pub HasNoZero : List ℕ → Type 0
HasNoZero s = All (λ c. 0 < c) s

abbrev mutual
  pub IsCopyable : Any → Type 0
  IsCopyable (string s) = HasNoZero s
  IsCopyable (boolean t) = Unit {0}
  IsCopyable (number d) = Unit {0}
  IsCopyable null = Unit {0}
  IsCopyable undefined = Unit {0}
  IsCopyable object_eof = Unit {0}
  IsCopyable (object ps) = AreCopyable ps × Distinct ps
  IsCopyable (ecma_array c ps) = AreCopyable ps × Distinct ps

  pub AreCopyable : Properties → Type 0
  AreCopyable nil = Unit {0}
  AreCopyable (property k v ps) = IsCopyable v × AreCopyable ps

c_str_lem : (s : List ℕ) → HasNoZero s → c_str s ≡ s
unfolding c_str
c_str_lem [] h = refl
c_str_lem (c ∷ s) h = ground (arith, c_str_lem s h.1)

mutual
  unfolding copy rebuild

  copy_value : (v : Any) → IsCopyable v → copy v ≡ v
  copy_value (string s) h = ap string (c_str_lem s h)
  copy_value (boolean t) h = refl
  copy_value (number d) h = refl
  copy_value null h = refl
  copy_value undefined h = refl
  copy_value object_eof h = refl
  copy_value (object ps) h = ap object (copy_properties ps nil h.0 ∙ rebuild-nil_lem ps h.1)
  copy_value (ecma_array c ps) h =
      ap (ecma_array c) (copy_properties ps nil h.0 ∙ rebuild-nil_lem ps h.1)

  copy_properties : (ps acc : Properties) → AreCopyable ps → copy_into ps acc ≡ rebuild acc ps
  copy_properties nil acc h = refl
  copy_properties (property k v ps) acc h =
      rw (copy_value v h.0) (copy_properties ps (set k (some v) acc) h.1)

-- copy() returns an equal value, the order of every table included, where no string holds a zero
-- byte and no table has a key twice.
pub copy_lem : (v : Any) → IsCopyable v → copy v ≡ v
copy_lem v h = copy_value v h

c_str_cut : (s t : List ℕ) → c_str (s ++ (0 ∷ t)) ≡ c_str s
unfolding c_str
c_str_cut [] t = refl
c_str_cut (c ∷ s) t = ground (arith, c_str_cut s t)

c_str-HasNoZero : (s : List ℕ) → HasNoZero (c_str s)
unfolding c_str
c_str-HasNoZero [] = tt
c_str-HasNoZero (c ∷ s) = ground (arith, c_str-HasNoZero s)

not_equal : (s t u : List ℕ) → HasNoZero u → u ≢ (s ++ (0 ∷ t))
not_equal [] t [] h = λ e. cc
not_equal [] t (x ∷ u) h = λ e. ground arith
not_equal (c ∷ s) t [] h = λ e. cc
not_equal (c ∷ s) t (x ∷ u) h = λ e. ground (arith, not_equal s t u h.1)

-- A string with a zero byte is never copied to an equal string: the copy ends before that byte.
pub copy-zero_byte :
    (s t : List ℕ)
    → (copy (string (s ++ (0 ∷ t))) ≡ copy (string s))
      × (copy (string (s ++ (0 ∷ t))) ≢ string (s ++ (0 ∷ t)))
unfolding copy
copy-zero_byte s t = (
  ap string (c_str_cut s t),
  λ e. not_equal s t _ (c_str-HasNoZero (s ++ (0 ∷ t))) (string_inj e),
)
  where
    string_inj : {a b : List ℕ} → string a ≡ string b → a ≡ b
    string_inj e = cc
