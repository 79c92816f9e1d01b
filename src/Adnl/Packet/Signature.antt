-- ===== src/Adnl/Packet/Signature.antt =====
-- What is signed and what is verified of a packet of src/proto/adnl.rs.
use Prim.Native.Nat.{bit_and, bit_or}
use mathlib.Core.List.{append_assoc, append-nil}
use tiny_adnl.Prelude.{
  ℕ, zero, suc, ◌+◌, ◌-◌, ◌/◌, ◌%◌, ◌^◌, ◌<◌, ◌≡◌, ◌∙◌, refl, sym, ap, true, Option, none, some,
  List, [], ◌∷◌, ◌++◌, ltb, ◌&&◌, length, take, drop, arith, take-append, drop-append,
  length-append, take-all,
}
use tiny_adnl.Adnl.Packet.{
  PacketContentsSignature, OutgoingPacketContents, OutgoingMessages, single, pair,
  clear_signature_bit, extract, flag, messages_flag, flags, write_u32, write_fields, write_packet,
}

-- The byte behind a prefix and one byte more.
clear_signature_bit-append :
    (pre rest : List ℕ) (a b i : ℕ)
    → length pre + 1 ≡ i
    → clear_signature_bit i (pre ++ (a ∷ b ∷ rest)) ≡ pre ++ (a ∷ bit_and b 247 ∷ rest)
unfolding clear_signature_bit
clear_signature_bit-append [] rest a b zero h = absurd (omega arith)
clear_signature_bit-append [] rest a b (suc i) h =
    let e : i ≡ 0 = omega arith in ap (λ j. a ∷ clear_signature_bit j (b ∷ rest)) e
clear_signature_bit-append (x ∷ pre) rest a b zero h = absurd (omega arith)
clear_signature_bit-append (x ∷ pre) rest a b (suc i) h =
    ap (◌∷◌ x) (clear_signature_bit-append pre rest a b i (omega arith))

-- What is behind the signature is moved over it.
moved-cut :
    (cleared sig rand : List ℕ) (k start end rem : ℕ)
    → start ≡ length cleared
    → end ≡ length cleared + length sig
    → rem ≡ length rand
    → k ≡ length cleared + length rand
    → let packet = cleared ++ (sig ++ rand) in
      take k (take start packet ++ (take rem (drop end packet) ++ drop (start + rem) packet))
      ≡ cleared ++ rand
moved-cut cleared sig rand k start end rem a b c d =
    let packet = cleared ++ (sig ++ rand) in
    let tail = drop (start + rem) packet in
    let e : take start packet ≡ cleared =
      take-append cleared (sig ++ rand) start 0 (omega arith) ∙ append-nil cleared in
    let f : drop end packet ≡ rand =
      drop-append cleared (sig ++ rand) end (length sig) (omega arith)
      ∙ drop-append sig rand (length sig) 0 (omega arith) in
    let g : take rem (drop end packet) ≡ rand = ap (take rem) f ∙ take-all rand rem (omega arith) in
    ap (λ x. take k (x ++ (take rem (drop end packet) ++ tail))) e
    ∙ ap (λ x. take k (cleared ++ (x ++ tail))) g
    ∙ take-append cleared (rand ++ tail) k (length rand) (omega arith)
    ∙ ap (◌++◌ cleared) (take-append rand tail (length rand) 0 (omega arith) ∙ append-nil rand)

-- A signature is cut out of a packet.
extract-cut :
    (s : PacketContentsSignature) (before cleared sig rand : List ℕ)
    → clear_signature_bit (s.flags_offset + 1) (before ++ (sig ++ rand)) ≡ cleared ++ (sig ++ rand)
    → length cleared ≡ length before
    → s.flags_offset + 1 < length before
    → s.signature_start ≡ length before
    → s.signature_end ≡ length before + length sig
    → 0 < length sig
    → 0 < length rand
    → length before + length sig + length rand < 2 ^ 16
    → extract s (before ++ (sig ++ rand)) ≡ some (cleared ++ rand, s.signature)
unfolding extract
extract-cut s before cleared sig rand clear same offset start end some_sig some_rand small =
    let packet = before ++ (sig ++ rand) in
    let l : length packet ≡ length before + (length sig + length rand) =
      length-append before (sig ++ rand) ∙ ap (λ j. length before + j) (length-append sig rand) in
    let at : (s.flags_offset + 1) % 65536 ≡ s.flags_offset + 1 = omega arith in
    let len : length packet % 65536 ≡ length packet = omega (arith, l) in
    let inside : (ltb (s.flags_offset + 1) (length packet)
          && (ltb s.signature_start s.signature_end && ltb s.signature_end (length packet)))
        ≡ true =
      ground (arith, l) in
    rw (at, len, inside, clear)
      (ap (λ x. some (x, s.signature))
        (moved-cut cleared sig rand (length packet - (s.signature_end - s.signature_start))
          s.signature_start s.signature_end (length packet - s.signature_end) (omega arith)
          (omega arith) (omega (arith, l)) (omega (arith, l))))

glue : (a b c d e : List ℕ) → ((a ++ b) ++ (c ++ d)) ++ e ≡ a ++ (b ++ (c ++ (d ++ e)))
glue a b c d e =
    append_assoc (a ++ b) (c ++ d) e
    ∙ append_assoc a b ((c ++ d) ++ e)
    ∙ ap (λ x. a ++ (b ++ x)) (append_assoc c d e)

-- The flags of a packet, with its signature's or with 0.
abbrev bits : Option (List ℕ) → OutgoingMessages → Option (List ℕ) → ℕ → ℕ
bits from messages dates signature =
    bit_or (bit_or (bit_or (bit_or 208 (flag from 1)) (messages_flag messages)) (flag dates 1024))
      signature

-- The flags, with the second byte's bit for the signature taken out.
cleared_u32 :
    (from : Option (List ℕ)) (messages : OutgoingMessages) (dates : Option (List ℕ))
    → let a = bits from messages dates 2048 in
      (a % 256 ∷ bit_and (a / 256 % 256) 247 ∷ a / 65536 % 256 ∷ a / 16777216 % 256 ∷ [])
      ≡ write_u32 (bits from messages dates 0)
unfolding write_u32
cleared_u32 none (single _) none = refl
cleared_u32 none (single _) (some _) = refl
cleared_u32 none (pair _) none = refl
cleared_u32 none (pair _) (some _) = refl
cleared_u32 (some _) (single _) none = refl
cleared_u32 (some _) (single _) (some _) = refl
cleared_u32 (some _) (pair _) none = refl
cleared_u32 (some _) (pair _) (some _) = refl

abbrev pub signed : OutgoingPacketContents → List ℕ → OutgoingPacketContents
signed p signature = record p { signature = some signature }

abbrev pub unsigned : OutgoingPacketContents → OutgoingPacketContents
unsigned p = record p { signature = none }

-- A signature that stands at its places in a packet is cut out, and what is left is the packet
-- without a signature, which is what the sender signs. The packet is shorter than 65536 bytes, and
-- neither the signature nor the bytes behind it are empty.
pub extract-write_packet :
    (tl_id : List ℕ) (p : OutgoingPacketContents) (sig : List ℕ) (s : PacketContentsSignature)
    → s.flags_offset ≡ length tl_id + length p.rand1
    → s.signature_start ≡ length tl_id + length p.rand1 + 4 + length (write_fields p)
    → s.signature_end ≡ s.signature_start + length sig
    → 0 < length sig
    → 0 < length p.rand2
    → s.signature_end + length p.rand2 < 2 ^ 16
    → extract s (write_packet tl_id (signed p sig))
      ≡ some (write_packet tl_id (unsigned p), s.signature)
unfolding write_packet write_u32 flags write_fields
extract-write_packet tl_id p sig s offset start end some_sig some_rand small =
    let a = bits p.from p.messages p.reinit_dates 2048 in
    let b1 = bit_and (a / 256 % 256) 247 in
    let fields = write_fields p in
    let high = a / 65536 % 256 ∷ a / 16777216 % 256 ∷ [] in
    let before = (tl_id ++ p.rand1) ++ ((a % 256 ∷ a / 256 % 256 ∷ high) ++ fields) in
    let cleared = (tl_id ++ p.rand1) ++ ((a % 256 ∷ b1 ∷ high) ++ fields) in
    let l : length before ≡ length tl_id + length p.rand1 + (4 + length fields) = omega (
      arith,
      length-append (tl_id ++ p.rand1) ((a % 256 ∷ a / 256 % 256 ∷ high) ++ fields),
      length-append tl_id p.rand1,
    ) in
    let same : length cleared ≡ length before =
      length-append (tl_id ++ p.rand1) _ ∙ sym (length-append (tl_id ++ p.rand1) _) in
    let clear : clear_signature_bit (s.flags_offset + 1) (before ++ (sig ++ p.rand2))
        ≡ cleared ++ (sig ++ p.rand2) =
      ap (clear_signature_bit (s.flags_offset + 1)) (
        append_assoc (tl_id ++ p.rand1) ((a % 256 ∷ a / 256 % 256 ∷ high) ++ fields)
          (sig ++ p.rand2))
      ∙ clear_signature_bit-append (tl_id ++ p.rand1) (high ++ (fields ++ (sig ++ p.rand2)))
          (a % 256) (a / 256 % 256) (s.flags_offset + 1)
          (omega (arith, length-append tl_id p.rand1))
      ∙ sym (append_assoc (tl_id ++ p.rand1) ((a % 256 ∷ b1 ∷ high) ++ fields) (sig ++ p.rand2)) in
    ap (extract s) (sym (glue tl_id p.rand1 (write_u32 a) fields (sig ++ p.rand2)))
    ∙ extract-cut s before cleared sig p.rand2 clear same (omega (arith, l)) (omega (arith, l))
        (omega (arith, l)) some_sig some_rand (omega (arith, l))
    ∙ ap (λ x. some (x, s.signature))
        (glue tl_id p.rand1 (a % 256 ∷ b1 ∷ high) fields p.rand2
          ∙ ap (λ x. tl_id ++ (p.rand1 ++ (x ++ (fields ++ p.rand2))))
              (cleared_u32 p.from p.messages p.reinit_dates))
