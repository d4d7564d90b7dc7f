-- ===== src/FaultInjector/Corruption.antt =====
-- send_corrupted_packet of fault_injector/tcp_proxy.cpp: the frame whose first payload byte is
-- flipped.
use Prim.Native.Nat.{bit_xor}
use embedded_comm_reliabilit.Common.{
  ℕ, zero, suc, ◌<◌, ◌≡◌, ◌≢◌, refl, sym, ap, ◌∙◌, List, [], ◌∷◌, ◌++◌, length, arith, ok, ok_inj,
  IsBytes, append-All,
}
use embedded_comm_reliabilit.Common.Xor.{xor_step, bit_xor-lt}
use embedded_comm_reliabilit.Protocol.{Packet}
use embedded_comm_reliabilit.Protocol.Error.{Message, fail}
use embedded_comm_reliabilit.Protocol.Codec.{encode_packet}
use embedded_comm_reliabilit.Protocol.Codec.RoundTrip.{
  IsPacket, frame_with, checksum, encode_packet_lem,
}
use embedded_comm_reliabilit.Protocol.Codec.Corruption.{
  decode_frame, frame-IsBytes, length-frame, decode_packet_corrupted,
}
use embedded_comm_reliabilit.FaultInjector.{flip_byte, corrupt_frame}

flip_differs : (b : ℕ) → b ≢ bit_xor b 0xFF
flip_differs b e = omega (arith, xor_step b 0xFF)

-- A list cut at an element.
record Cut (n : ℕ) (bs : List ℕ) : Type 0 where
  before : List ℕ
  element : ℕ
  after : List ℕ
  is : bs ≡ before ++ element ∷ after
  flipped : flip_byte n bs ≡ before ++ bit_xor element 0xFF ∷ after

cut : (n : ℕ) (bs : List ℕ) → n < length bs → Cut n bs
unfolding flip_byte
cut n [] h = absurd (omega arith)
cut zero (b ∷ bs) h = record { before = []; element = b; after = bs; is = refl; flipped = refl }
cut (suc n) (b ∷ bs) h =
    let c = cut n bs (omega arith) in
    record {
      before = b ∷ c.before;
      element = c.element;
      after = c.after;
      is = ap (◌∷◌ b) c.is;
      flipped = ap (◌∷◌ b) c.flipped;
    }

corrupt_frame_lem : (f : List ℕ) → 16 < length f → corrupt_frame f ≡ ok (flip_byte 16 f)
unfolding corrupt_frame
corrupt_frame_lem f h = ground arith

-- What the receiver makes of the damaged frame of a packet.
pub record Rejected (bytes : List ℕ) : Type 0 where
  pub frame : List ℕ
  pub same_size : length frame ≡ length bytes
  pub corrupted : corrupt_frame bytes ≡ ok frame
  pub rejected : (m : Message) × (decode_frame frame ≡ fail m)

length-flip_byte : (n : ℕ) (bs : List ℕ) → length (flip_byte n bs) ≡ length bs
unfolding flip_byte
length-flip_byte n [] = refl
length-flip_byte zero (b ∷ bs) = refl
length-flip_byte (suc n) (b ∷ bs) = ap suc (length-flip_byte n bs)

-- The frame of a well-formed packet with a payload is damaged without a change of its size, and the
-- receiver's decode_packet rejects the damaged frame.
pub corrupt_frame-Rejected :
    (p : Packet) (bytes : List ℕ)
    → IsPacket p
    → 0 < length p.payload
    → encode_packet p ≡ ok bytes
    → Rejected bytes
corrupt_frame-Rejected p bytes v h e =
    let same : frame_with (checksum p) p ≡ bytes =
      ok_inj _ bytes (sym (encode_packet_lem p v.payload_fits) ∙ e) in
    let size : 16 < length bytes = rw (← same) (omega (arith, length-frame p)) in
    let c = cut 16 bytes size in
    let b : IsBytes (c.before ++ c.element ∷ c.after) =
      rw (← c.is) (rw (← same) (frame-IsBytes p v)) in
    record {
      frame = flip_byte 16 bytes;
      same_size = length-flip_byte 16 bytes;
      corrupted = corrupt_frame_lem bytes size;
      rejected = rw c.flipped (
          decode_packet_corrupted p v c.before c.element (bit_xor c.element 0xFF) c.after
            (e ∙ ap ok c.is)
            (bit_xor-lt 8 c.element 0xFF
              (append-All (λ x. x < 256) c.before (c.element ∷ c.after) b).1.0 (omega arith))
            (flip_differs c.element));
    }
