-- ===== src/Protocol/Codec/Corruption.antt =====
-- Frames of protocol/codec.cpp with one wrong byte.
use embedded_comm_reliabilit.Common.{
  ℕ, suc, ◌+◌, ◌-◌, ◌≤◌, ◌<◌, ◌≡◌, ◌≢◌, refl, sym, ap, ap₂, ◌∙◌, List, [], ◌∷◌, ◌++◌, length, take,
  drop, arith, ok, IsBytes, Outcome, inl, inr, All-append, All-take, All-drop, append_assoc,
  append-All, take-append-drop, take-append_le, drop-append_le, take-append_ge, drop-append_ge,
  ok_inj, length-append, length-drop,
}
use native.Mathlib.Decide.{dec_lt}
use embedded_comm_reliabilit.Protocol.{Packet, header_size}
use embedded_comm_reliabilit.Protocol.Error.{Exception, fail, Message, Settles, Settles-cases}
use embedded_comm_reliabilit.Protocol.Crc32.{crc32}
use embedded_comm_reliabilit.Protocol.Crc32.Injective.{crc32_detects_byte}
use embedded_comm_reliabilit.Protocol.Codec.{make_crc_input, encode_packet, decode_packet, read_u32}
use embedded_comm_reliabilit.Protocol.Codec.RoundTrip.{
  IsPacket, frame_with, checksum, checksum-lt, word, word-IsBytes, to_byte-lt, u32_back,
  encode_packet_lem,
}
use embedded_comm_reliabilit.Protocol.Codec.Canonical.{encode_packet-decode_packet}

-- The bytes of a frame that the checksum covers: all but its own field.
abbrev covered : List ℕ → List ℕ
covered f = take 12 f ++ drop 16 f

abbrev IsSealed : List ℕ → Type 0
IsSealed f = read_u32 (drop 12 f) ≡ crc32 (covered f)

pub frame-IsSealed : (p : Packet) → IsPacket p → IsSealed (frame_with (checksum p) p)
unfolding frame_with checksum make_crc_input read_u32
frame-IsSealed p v = u32_back (checksum p) (checksum-lt p v)

read_u32-append : (xs ys : List ℕ) → 4 ≤ length xs → read_u32 (xs ++ ys) ≡ read_u32 xs
unfolding read_u32
read_u32-append (a ∷ b ∷ c ∷ d ∷ xs) ys h = refl
read_u32-append _ ys h = absurd (omega arith)

-- Two words that differ in one of their four bytes at most are equal only if that byte is.
read_u32_byte :
    (xs : List ℕ) (x y : ℕ) (ys : List ℕ)
    → length xs < 4
    → 4 ≤ length (xs ++ x ∷ ys)
    → read_u32 (xs ++ x ∷ ys) ≡ read_u32 (xs ++ y ∷ ys)
    → x ≡ y
unfolding read_u32
read_u32_byte [] x y (b ∷ c ∷ d ∷ ys) h k e = omega arith
read_u32_byte (a ∷ []) x y (c ∷ d ∷ ys) h k e = omega arith
read_u32_byte (a ∷ b ∷ []) x y (d ∷ ys) h k e = omega arith
read_u32_byte (a ∷ b ∷ c ∷ []) x y ys h k e = omega arith
read_u32_byte _ x y _ h k e = absurd (omega arith)

-- What the checksum covers, and its field, where the byte `z` stands before, in or behind the field.
module _ (xs : List ℕ) (z : ℕ) (ys : List ℕ) where
  covered_before :
      (n : ℕ)
      → 11 ≡ length xs + n
      → covered (xs ++ z ∷ ys) ≡ xs ++ z ∷ (take n ys ++ drop (n + 4) ys)
  covered_before n e =
      ap₂ ◌++◌ (take-append_ge 12 (suc n) xs (z ∷ ys) (omega arith))
        (drop-append_ge 16 (suc (n + 4)) xs (z ∷ ys) (omega arith))
      ∙ append_assoc xs (z ∷ take n ys) (drop (n + 4) ys)

  field_before : (n : ℕ) → 11 ≡ length xs + n → drop 12 (xs ++ z ∷ ys) ≡ drop n ys
  field_before n e = drop-append_ge 12 (suc n) xs (z ∷ ys) (omega arith)

  covered_in :
      (n : ℕ)
      → 12 ≤ length xs
      → 15 ≡ length xs + n
      → covered (xs ++ z ∷ ys) ≡ take 12 xs ++ drop n ys
  covered_in n h e =
      ap₂ ◌++◌ (take-append_le 12 xs (z ∷ ys) h)
        (drop-append_ge 16 (suc n) xs (z ∷ ys) (omega arith))

  covered_behind : 16 ≤ length xs → covered (xs ++ z ∷ ys) ≡ (take 12 xs ++ drop 16 xs) ++ z ∷ ys
  covered_behind h =
      ap₂ ◌++◌ (take-append_le 12 xs (z ∷ ys) (omega arith)) (drop-append_le 16 xs (z ∷ ys) h)
      ∙ sym (append_assoc (take 12 xs) (drop 16 xs) (z ∷ ys))

  field_behind : 16 ≤ length xs → read_u32 (drop 12 (xs ++ z ∷ ys)) ≡ read_u32 (drop 12 xs)
  field_behind h =
      ap read_u32 (drop-append_le 12 xs (z ∷ ys) (omega arith))
      ∙ read_u32-append (drop 12 xs) (z ∷ ys) (omega (arith, length-drop 12 xs))

module _ (xs : List ℕ) (x y : ℕ) (ys : List ℕ) (xb : IsBytes xs) (px : x < 256) (py : y < 256)
    (yb : IsBytes ys) (long : 16 ≤ length (xs ++ x ∷ ys)) (one : IsSealed (xs ++ x ∷ ys))
    (two : IsSealed (xs ++ y ∷ ys)) where
  same_before : (n : ℕ) → 11 ≡ length xs + n → x ≢ y → ⊥
  same_before n e differs =
      crc32_detects_byte xs x y (take n ys ++ drop (n + 4) ys) xb px py
        (All-append (λ b. b < 256) (take n ys) (drop (n + 4) ys) (All-take (λ b. b < 256) n ys yb)
          (All-drop (λ b. b < 256) (n + 4) ys yb))
        differs
        (sym (ap crc32 (covered_before xs x ys n e))
          ∙ sym one
          ∙ ap read_u32 (field_before xs x ys n e ∙ sym (field_before xs y ys n e))
          ∙ two
          ∙ ap crc32 (covered_before xs y ys n e))

  same_in : (n : ℕ) → 12 ≤ length xs → 15 ≡ length xs + n → x ≡ y
  same_in n h e = read_u32_byte (drop 12 xs) x y ys (omega (arith, length-drop 12 xs)) room (
      ap read_u32 (sym (drop-append_le 12 xs (x ∷ ys) h))
      ∙ one
      ∙ ap crc32 (covered_in xs x ys n h e ∙ sym (covered_in xs y ys n h e))
      ∙ sym two
      ∙ ap read_u32 (drop-append_le 12 xs (y ∷ ys) h))
    where
      room : 4 ≤ length (drop 12 xs ++ x ∷ ys)
      room =
          omega (
            arith,
            length-append (drop 12 xs) (x ∷ ys),
            length-append xs (x ∷ ys),
            length-drop 12 xs,
          )

  same_behind : 16 ≤ length xs → x ≢ y → ⊥
  same_behind h differs =
      crc32_detects_byte (take 12 xs ++ drop 16 xs) x y ys
        (All-append (λ b. b < 256) (take 12 xs) (drop 16 xs) (All-take (λ b. b < 256) 12 xs xb)
          (All-drop (λ b. b < 256) 16 xs xb))
        px py yb differs
        (sym (ap crc32 (covered_behind xs x ys h))
          ∙ sym one
          ∙ field_behind xs x ys h
          ∙ sym (field_behind xs y ys h)
          ∙ two
          ∙ ap crc32 (covered_behind xs y ys h))

  not-sealed_twice : x ≢ y → ⊥
  not-sealed_twice differs = elim (dec_lt (length xs) 12) [
    | yes p ↦ same_before (11 - length xs) (omega arith) differs
    | no p ↦ elim (dec_lt (length xs) 16) [
      | yes q ↦ differs (same_in (15 - length xs) (omega arith) (omega arith))
      | no q ↦ same_behind (omega arith) differs
    ]
  ]

-- decode_packet returns a packet or throws a `std::runtime_error`.
pub decode_packet-Settles : (header payload : List ℕ) → Settles (decode_packet header payload)
unfolding decode_packet
decode_packet-Settles header payload = ground arith

pub frame-IsBytes : (p : Packet) → IsPacket p → IsBytes (frame_with (checksum p) p)
unfolding frame_with
frame-IsBytes p v =
    let sums : IsBytes (word (checksum p) p.payload) =
      word-IsBytes (checksum p) p.payload v.payload_bytes in
    let lengths : IsBytes (word (length p.payload) (word (checksum p) p.payload)) =
      word-IsBytes (length p.payload) (word (checksum p) p.payload) sums in
    let bytes =
      word-IsBytes p.sequence (word (length p.payload) (word (checksum p) p.payload)) lengths in
    (omega arith, (omega arith, (omega arith, (to_byte-lt p.type v.type_fits, bytes))))

pub length-frame :
    (p : Packet) → length (frame_with (checksum p) p) ≡ header_size + length p.payload
unfolding frame_with
length-frame p = omega arith

abbrev pub decode_frame : List ℕ → Outcome Exception Packet
decode_frame f = decode_packet (take header_size f) (drop header_size f)

-- An accepted frame carries its checksum.
decoded-IsSealed : (f : List ℕ) (q : Packet) → IsBytes f → decode_frame f ≡ ok q → IsSealed f
decoded-IsSealed f q fb e =
    let back =
      encode_packet-decode_packet (take 16 f) (drop 16 f) q (All-take (λ b. b < 256) 16 f fb)
        (All-drop (λ b. b < 256) 16 f fb) e in
    let same : frame_with (checksum q) q ≡ f =
      ok_inj (frame_with (checksum q) q) f
        (sym (encode_packet_lem q back.1.payload_fits) ∙ back.0 ∙ ap ok (take-append-drop 16 f)) in
    rw (← same) (frame-IsSealed q back.1)

module _ (p : Packet) (v : IsPacket p) (xs : List ℕ) (x y : ℕ) (ys : List ℕ)
    (encoded : encode_packet p ≡ ok (xs ++ x ∷ ys)) (py : y < 256) (differs : x ≢ y) where
  frame_is : frame_with (checksum p) p ≡ xs ++ x ∷ ys
  frame_is = ok_inj _ (xs ++ x ∷ ys) (sym (encode_packet_lem p v.payload_fits) ∙ encoded)

  -- One byte of the frame of a packet, replaced by another: decode_packet throws.
  pub decode_packet_corrupted : (m : Message) × (decode_frame (xs ++ y ∷ ys) ≡ fail m)
  decode_packet_corrupted =
      elim (Settles-cases _
        (decode_packet-Settles (take 16 (xs ++ y ∷ ys)) (drop 16 (xs ++ y ∷ ys)))) [
          | inr thrown ↦ thrown
          | inl (q, e) ↦ absurd (
              not-sealed_twice xs x y ys parts.0 parts.1.0 py parts.1.1 long sealed
                (decoded-IsSealed (xs ++ y ∷ ys) q
                  (All-append (λ b. b < 256) xs (y ∷ ys) parts.0 (py, parts.1.1)) e)
                differs)
        ]
    where
      parts : IsBytes xs × IsBytes (x ∷ ys)
      parts = append-All (λ b. b < 256) xs (x ∷ ys) (rw frame_is at (frame-IsBytes p v))

      long : 16 ≤ length (xs ++ x ∷ ys)
      long = rw (← frame_is) (omega (arith, length-frame p))

      sealed : IsSealed (xs ++ x ∷ ys)
      sealed = rw frame_is at (frame-IsSealed p v)
