-- ===== src/Adnl/Encryption/Mask.antt =====
-- The masks of src/adnl/encryption.rs: each undoes itself, and their order does not matter.
use tiny_adnl.Prelude.Bytes.{AllBytes}
use tiny_adnl.Prelude.Xor.{bit_xor-lt, bit_xor_swap, bit_xor_undo}
use tiny_adnl.Prelude.{ℕ, suc, ◌+◌, ◌<◌, ◌≡◌, ◌∙◌, ap, sym, refl, List, [], ◌∷◌, length, arith}
use tiny_adnl.Adnl.Encryption.{mask_from, Xor, xor_at, xor_all}

pub mask_from_undo :
    (stream : ℕ → ℕ) (i : ℕ) (bytes : List ℕ)
    → ((j : ℕ) → stream j < 256)
    → AllBytes bytes
    → mask_from stream i (mask_from stream i bytes) ≡ bytes
unfolding mask_from
mask_from_undo stream i [] s h = refl
mask_from_undo stream i (b ∷ bs) s h =
    rw (bit_xor_undo b (stream i) h.0 (s i), mask_from_undo stream (i + 1) bs s h.1) refl

pub length-mask_from :
    (stream : ℕ → ℕ) (i : ℕ) (bytes : List ℕ) → length (mask_from stream i bytes) ≡ length bytes
unfolding mask_from
length-mask_from stream i [] = refl
length-mask_from stream i (b ∷ bs) = ap suc (length-mask_from stream (i + 1) bs)

pub record IsXor (x : Xor) : Type 0 where
  pub is0 : x.byte0 < 256
  pub is1 : x.byte1 < 256
  pub is2 : x.byte2 < 256
  pub is3 : x.byte3 < 256

xor_at-IsXor : (i b : ℕ) (x : Xor) → b < 256 → IsXor x → IsXor (xor_at i b x)
unfolding xor_at
xor_at-IsXor i b x h v = ground (
  arith,
  bit_xor-lt x.byte0 b v.is0 h,
  bit_xor-lt x.byte1 b v.is1 h,
  bit_xor-lt x.byte2 b v.is2 h,
  bit_xor-lt x.byte3 b v.is3 h,
)

-- Two single steps in either order; a step taken twice.
xor_at_swap :
    (i j a b : ℕ) (x : Xor)
    → a < 256
    → b < 256
    → IsXor x
    → xor_at i a (xor_at j b x) ≡ xor_at j b (xor_at i a x)
unfolding xor_at
xor_at_swap i j a b x ha hb v = ground (
  arith,
  bit_xor_swap x.byte0 a b v.is0 ha hb,
  bit_xor_swap x.byte1 a b v.is1 ha hb,
  bit_xor_swap x.byte2 a b v.is2 ha hb,
  bit_xor_swap x.byte3 a b v.is3 ha hb,
)

xor_at_undo : (i a : ℕ) (x : Xor) → a < 256 → IsXor x → xor_at i a (xor_at i a x) ≡ x
unfolding xor_at
xor_at_undo i a x ha v = ground (
  arith,
  bit_xor_undo x.byte0 a v.is0 ha,
  bit_xor_undo x.byte1 a v.is1 ha,
  bit_xor_undo x.byte2 a v.is2 ha,
  bit_xor_undo x.byte3 a v.is3 ha,
)

pub xor_all-IsXor :
    (i : ℕ) (x : Xor) (bytes : List ℕ) → AllBytes bytes → IsXor x → IsXor (xor_all i x bytes)
unfolding xor_all
xor_all-IsXor i x [] h v = v
xor_all-IsXor i x (b ∷ bs) h v =
    xor_all-IsXor (i + 1) (xor_at i b x) bs h.1 (xor_at-IsXor i b x h.0 v)

xor_all-xor_at :
    (i j a : ℕ) (x : Xor) (bytes : List ℕ)
    → a < 256
    → AllBytes bytes
    → IsXor x
    → xor_all i (xor_at j a x) bytes ≡ xor_at j a (xor_all i x bytes)
unfolding xor_all
xor_all-xor_at i j a x [] ha h v = refl
xor_all-xor_at i j a x (b ∷ bs) ha h v =
    ap (λ y. xor_all (i + 1) y bs) (xor_at_swap i j b a x h.0 ha v)
    ∙ xor_all-xor_at (i + 1) j a (xor_at i b x) bs ha h.1 (xor_at-IsXor i b x h.0 v)

pub xor_all_swap :
    (i j : ℕ) (x : Xor) (xs ys : List ℕ)
    → AllBytes xs
    → AllBytes ys
    → IsXor x
    → xor_all i (xor_all j x ys) xs ≡ xor_all j (xor_all i x xs) ys
unfolding xor_all
xor_all_swap i j x [] ys h k v = refl
xor_all_swap i j x (b ∷ bs) ys h k v =
    ap (λ y. xor_all (i + 1) y bs) (sym (xor_all-xor_at j i b x ys h.0 k v))
    ∙ xor_all_swap (i + 1) j (xor_at i b x) bs ys h.1 k (xor_at-IsXor i b x h.0 v)

pub xor_all_undo :
    (i : ℕ) (x : Xor) (bytes : List ℕ)
    → AllBytes bytes
    → IsXor x
    → xor_all i (xor_all i x bytes) bytes ≡ x
unfolding xor_all
xor_all_undo i x [] h v = refl
xor_all_undo i x (b ∷ bs) h v =
    ap (λ y. xor_all (i + 1) y bs)
      (sym (xor_all-xor_at (i + 1) i b (xor_at i b x) bs h.0 h.1 (xor_at-IsXor i b x h.0 v)))
    ∙ ap (λ y. xor_all (i + 1) (xor_all (i + 1) y bs) bs) (xor_at_undo i b x h.0 v)
    ∙ xor_all_undo (i + 1) x bs h.1 v
