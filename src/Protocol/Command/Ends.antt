-- ===== src/Protocol/Command/Ends.antt =====
-- Operations that read a payload of src/protocol/srs_protocol_rtmp_stack.cpp to its end: `Ends m out
-- v` says that m, with just `out` at the cursor, passes it and returns v. A reader asks whether the
-- buffer is empty where a value is optional.
use srs_simple.Base.{
  ℕ, ◌^◌, ◌≡◌, ◌≤◌, ◌<◌, ◌∙◌, ap, sym, subst, Bool, false, not, ◌||◌, ◌==◌, same, same_refl,
  if◌then◌else◌, List, [], ◌∷◌, ◌++◌, length, leb, append_assoc, append-nil, length-append, ok,
  arith, error_rtmp_amf0_decode,
}
use srs_simple.Kernel.Buffer.{M, ◌>>=◌, ◌>>◌, pure, empty, require_or, read_8bytes}
use srs_simple.Kernel.Buffer.Cursor.{cursor, empty-cursor}
use srs_simple.Kernel.Buffer.Bytes.{be8}
use srs_simple.Kernel.Buffer.Reads.{
  Reads, >>=-ok, Reads-bind, Reads-require, Reads-pure, Reads-read_8bytes,
}
use srs_simple.Protocol.Amf0.{Properties, string, number, null, undefined, object}
use srs_simple.Protocol.Amf0.Codec.{read_marker, read_utf8}
use srs_simple.Protocol.Amf0.Codec.Wire.{wire, wire_utf8}
use srs_simple.Protocol.Amf0.Codec.Parts.{Reads-read_marker, Reads-read_utf8, Reads-read_utf8_over}
use srs_simple.Protocol.Amf0.Codec.RoundTrip.{Reads-object}
use srs_simple.Protocol.Amf0.Codec.Encodable.{IsEncodable}
use srs_simple.Protocol.Command.Decode.{
  srs_amf0_read_string, srs_amf0_read_number, srs_amf0_read_null, srs_amf0_read_undefined,
  read_object, check_name, read_name,
}

module _ {A : Type 0} where
  abbrev pub Ends : M A → List ℕ → A → Type 0
  Ends m out v = (pre : List ℕ) → m (cursor pre out) ≡ ok (v, cursor (pre ++ out) [])

  pub Ends-Reads : (m : M A) (out : List ℕ) {v : A} → Reads m out v → Ends m out v
  Ends-Reads m out {v} h pre =
      subst (λ l. m (cursor pre l) ≡ ok (v, cursor (pre ++ out) [])) (append-nil out) (h pre [])

  pub Ends-bind :
      {B : Type 0} (m : M B) (f : B → M A) (o1 o2 : List ℕ) {b : B} {v : A}
      → Reads m o1 b
      → Ends (f b) o2 v
      → Ends (m >>= f) (o1 ++ o2) v
  Ends-bind m f o1 o2 hm hf pre =
      >>=-ok m f (cursor pre (o1 ++ o2)) (hm pre o2) ∙ hf (pre ++ o1) ∙ rw (append_assoc pre o1 o2)

  -- Nothing is left.
  pub Ends-default : (m : M A) (v : A) → Ends (λ b. if empty b then ok (v, b) else m b) [] v
  Ends-default m v pre =
      ap (λ t. if t then ok (v, cursor pre []) else m (cursor pre [])) (empty-cursor pre [])
      ∙ ap (λ l. ok (v, cursor l [])) (sym (append-nil pre))

  -- A byte is left.
  pub Reads-nonempty :
      (m : M A) (d : A) (out : List ℕ) {v : A}
      → 0 < length out
      → Reads m out v
      → Reads (λ b. if empty b then ok (d, b) else m b) out v
  Reads-nonempty m d out p h pre post =
      ap (λ t. if t then ok (d, cursor pre (out ++ post)) else m (cursor pre (out ++ post)))
        (empty-cursor pre (out ++ post) ∙ more)
      ∙ h pre post
    where
      more : leb (length (out ++ post)) 0 ≡ false
      more = ground (arith, p, length-append out post)

pub Ends-bind_end :
    {A B : Type 0} (m : M B) (f : B → M A) {b : B} {v : A}
    → Ends m [] b
    → Ends (f b) [] v
    → Ends (m >>= f) [] v
Ends-bind_end m f {v = v} hm hf pre =
    >>=-ok m f (cursor pre []) (hm pre)
    ∙ hf (pre ++ [])
    ∙ ap (λ l. ok (v, cursor (l ++ []) [])) (append-nil pre)

pub Ends-map :
    {A B : Type 0} (m : M B) (g : B → A) (out : List ℕ) {b : B}
    → Ends m out b
    → Ends (m >>= λ v. pure (g v)) out (g b)
Ends-map m g out h pre = >>=-ok m (λ v. pure (g v)) (cursor pre out) (h pre)

pub Reads-string_new :
    (s : List ℕ) → length s < 32768 → Reads (srs_amf0_read_string []) (wire (string s)) s
unfolding srs_amf0_read_string
Reads-string_new s h =
    Reads-bind (read_marker 2) (λ _. read_utf8 []) (2 ∷ []) (wire_utf8 s) (Reads-read_marker 2)
      (Reads-read_utf8 s h)

pub Reads-string :
    (value s : List ℕ)
    → 0 < length s
    → length s < 32768
    → Reads (srs_amf0_read_string value) (wire (string s)) s
unfolding srs_amf0_read_string
Reads-string value s p h =
    Reads-bind (read_marker 2) (λ _. read_utf8 value) (2 ∷ []) (wire_utf8 s) (Reads-read_marker 2)
      (Reads-read_utf8_over value s p h)

pub Reads-number : (d : ℕ) → d < 2 ^ 64 → Reads srs_amf0_read_number (wire (number d)) d
unfolding srs_amf0_read_number
Reads-number d h =
    Reads-bind (read_marker 0) (λ _. require_or 8 error_rtmp_amf0_decode >> read_8bytes) (0 ∷ [])
      (be8 d) (Reads-read_marker 0)
      (Reads-require 8 error_rtmp_amf0_decode read_8bytes (be8 d) (omega arith)
        (Reads-read_8bytes d h))

pub Reads-null : Reads srs_amf0_read_null (wire null) tt
unfolding srs_amf0_read_null
Reads-null = Reads-read_marker 5

pub Reads-undefined : Reads srs_amf0_read_undefined (wire undefined) tt
unfolding srs_amf0_read_undefined
Reads-undefined = Reads-read_marker 6

pub Reads-read_object :
    (ps : Properties) (fuel : ℕ)
    → IsEncodable (object ps)
    → length (wire (object ps)) ≤ fuel
    → Reads (read_object fuel) (wire (object ps)) ps
unfolding read_object
Reads-read_object ps fuel h le = Reads-object ps fuel h le

-- A name that the packet can have.
pub Reads-check_name :
    (name : List ℕ) (invalid : Bool)
    → 0 < length name
    → invalid ≡ false
    → Reads (check_name name invalid) [] tt
unfolding check_name
Reads-check_name name invalid p h = rw (h, positive) (Reads-pure tt)
  where
    positive : ((length name == 0) || false) ≡ false
    positive = ground (arith, p)

pub Reads-read_name :
    (name : List ℕ)
    → 0 < length name
    → length name < 32768
    → Reads (read_name name) (wire (string name)) tt
unfolding read_name
Reads-read_name name p h =
    subst (λ l. Reads (read_name_of name) l tt) (append-nil (wire (string name)))
      (Reads-bind (srs_amf0_read_string name) (λ n. check_name n (not (same n name)))
        (wire (string name)) [] (Reads-string name name p h)
        (Reads-check_name name (not (same name name)) p (ap not (same_refl name))))
  where
    read_name_of : List ℕ → M (Unit {0})
    read_name_of n = srs_amf0_read_string n >>= λ m. check_name m (not (same m n))

-- The name and the id, which are in front of every command.
pub Ends-call :
    {A : Type 0} (name : List ℕ) (id : ℕ) (f : ℕ → M A) (out : List ℕ) {v : A}
    → 0 < length name
    → length name < 32768
    → id < 2 ^ 64
    → Ends (f id) out v
    → Ends
        (read_name name >> (srs_amf0_read_number >>= f))
        (wire (string name) ++ (wire (number id) ++ out))
        v
Ends-call name id f out p h hid k =
    Ends-bind (read_name name) (λ _. srs_amf0_read_number >>= f) (wire (string name))
      (wire (number id) ++ out) (Reads-read_name name p h)
      (Ends-bind srs_amf0_read_number f (wire (number id)) out (Reads-number id hid) k)
