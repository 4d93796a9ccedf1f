-- ===== src/Kernel/Ts/Context/Tables.antt =====
-- What a receiver reads from the program tables of src/kernel/srs_kernel_ts.cpp (ISO 13818-1,
-- 2.4.4).
use srs_simple.Base.{
  ℕ, ◌+◌, ◌*◌, ◌/◌, ◌%◌, ◌≡◌, Bool, true, false, ◌&&◌, ◌||◌, not, ◌==◌, if◌then◌else◌, List, [],
  ◌∷◌, ◌++◌, length, take, Option, none, some, Outcome,
}
use srs_simple.Kernel.Ts.{Channel, channel, counter}
use srs_simple.Kernel.Ts.Packet.{unpack}
use srs_simple.Kernel.Ts.Context.{Context, bump, Result}

-- The bits of a byte, the most significant first.
unfoldable pub bits : ℕ → List Bool
bits n =
    (n / 128 % 2 == 1)
    ∷ (n / 64 % 2 == 1)
    ∷ (n / 32 % 2 == 1)
    ∷ (n / 16 % 2 == 1)
    ∷ (n / 8 % 2 == 1)
    ∷ (n / 4 % 2 == 1)
    ∷ (n / 2 % 2 == 1)
    ∷ (n % 2 == 1)
    ∷ []

-- The CRC decoder of ISO 13818-1, annex A: a shift register of 32 bits, all ones at the start, with
-- a feedback at these exponents of its polynomial.
abbrev exponents : List ℕ
exponents = 26 ∷ 23 ∷ 22 ∷ 16 ∷ 12 ∷ 11 ∷ 10 ∷ 8 ∷ 7 ∷ 5 ∷ 4 ∷ 2 ∷ 1 ∷ 0 ∷ []

-- A register, its highest bit first, with the bits at the exponents of the list inverted.
unfoldable pub feedback : List ℕ → List Bool → List Bool
feedback _ [] = []
feedback [] (b ∷ bs) = b ∷ feedback [] bs
feedback (e ∷ es) (b ∷ bs) =
    if length bs == e then not b ∷ feedback es bs else b ∷ feedback (e ∷ es) bs

-- One bit shifted in: the feedback acts where it differs from the bit shifted out.
unfoldable pub shift : List Bool → Bool → List Bool
shift [] bit = []
shift (true ∷ r) true = r ++ (false ∷ [])
shift (true ∷ r) false = feedback exponents (r ++ (false ∷ []))
shift (false ∷ r) true = feedback exponents (r ++ (false ∷ []))
shift (false ∷ r) false = r ++ (false ∷ [])

unfoldable pub shift_bits : List Bool → List Bool → List Bool
shift_bits r [] = r
shift_bits r (bit ∷ rest) = shift_bits (shift r bit) rest

unfoldable pub shift_bytes : List Bool → List ℕ → List Bool
shift_bytes r [] = r
shift_bytes r (b ∷ bs) = shift_bytes (shift_bits r (bits b)) bs

unfoldable pub any_bit : List Bool → Bool
any_bit [] = false
any_bit (b ∷ bs) = b || any_bit bs

-- The decoder accepts a section with its CRC where no bit is left in the register.
unfoldable pub crc_right : List ℕ → Bool
crc_right s = not (any_bit (shift_bytes (bits 255 ++ bits 255 ++ bits 255 ++ bits 255) s))

-- A section at the start of a payload, where the CRC decoder accepts it.
unfoldable pub read_section : List ℕ → Option (List ℕ)
read_section (pointer ∷ table ∷ l1 ∷ l0 ∷ rest) =
    let s : List ℕ = table ∷ l1 ∷ l0 ∷ take (l1 % 16 * 256 + l0) rest in
    if pointer == 0 && crc_right s then some s else none
read_section _ = none

-- The pid of the program map, in the association table.
unfoldable pub read_pat : List ℕ → Option ℕ
read_pat (table ∷ l1 ∷ l0 ∷ t1 ∷ t0 ∷ v ∷ n ∷ last ∷ p1 ∷ p0 ∷ h ∷ l ∷ rest) =
    if table == 0 then some (h % 32 * 256 + l) else none
read_pat _ = none

-- The streams that the program map lists, with their types and pids, up to the CRC behind them.
unfoldable pub read_streams : List ℕ → List (ℕ × ℕ)
read_streams (t ∷ h ∷ l ∷ i1 ∷ i0 ∷ rest) = (t, h % 32 * 256 + l) ∷ read_streams rest
read_streams _ = []

-- The pid of the clock, and the streams.
unfoldable pub read_pmt : List ℕ → Option (ℕ × List (ℕ × ℕ))
read_pmt (table ∷ l1 ∷ l0 ∷ p1 ∷ p0 ∷ v ∷ n ∷ last ∷ c1 ∷ c0 ∷ i1 ∷ i0 ∷ rest) =
    if table == 2 then some (c1 % 32 * 256 + c0, read_streams rest) else none
read_pmt _ = none

abbrev section_of : Option (List ℕ) → Option (List ℕ)
section_of none = none
section_of (some payload) = read_section payload

-- The section of a packet of 188 bytes with this pid and counter.
unfoldable pub read_table : ℕ → ℕ → List ℕ → Option (List ℕ)
read_table pid count pkt = section_of (unpack pid count true pkt)

abbrev streams : Bool → Bool → List (ℕ × ℕ)
streams video audio =
    (if video then (27, 256) ∷ [] else []) ++ (if audio then (15, 257) ∷ [] else [])

-- The program map of these streams, behind its CRC check.
abbrev pub IsMap : Bool → Bool → List ℕ → Type 0
IsMap video audio s = (read_pmt s ≡ some (if video then 256 else 257, streams video audio))

module _ {W : Type 0} (write : W → List ℕ → Outcome (Unit {0}) × W) where
  -- The write of a packet on the channel of a pid, which counts it.
  abbrev pub put : ℕ → List ℕ → Context → W → Result write
  put pid pkt c w = ((write w pkt).0, record c { pids = bump pid c.pids }, (write w pkt).1)

  -- The counter that the next packet of a pid gets.
  abbrev pub next_counter : ℕ → List Channel → ℕ
  next_counter pid pids = counter pid (channel pid 0 pids)

  -- A packet of 188 bytes whose section the CRC decoder accepts and is as P says.
  abbrev pub HasTable : ℕ → ℕ → (List ℕ → Type 0) → List ℕ → Type 0
  HasTable pid count P pkt = (s : List ℕ) × (read_table pid count pkt ≡ some s) × P s
