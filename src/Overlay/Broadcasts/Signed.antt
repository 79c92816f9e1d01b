-- ===== src/Overlay/Broadcasts/Signed.antt =====
-- The data that the signature of a broadcast is for, src/overlay/overlay.rs.
use tiny_adnl.Prelude.{ℕ, ◌≡◌, refl, true, false, Option, some, List, Option-cases, inl, inr}
use tiny_adnl.Rldp.Compression.{Zstd, decompress}
use tiny_adnl.Overlay.Defs.{OverlayBroadcast}
use tiny_adnl.Overlay.Broadcasts.{OverlayCrypto, make_broadcast_to_sign, signed_data}

module _ (c : OverlayCrypto) (z : Zstd) (choose : List ℕ → ℕ → List ℕ) (node_id : ℕ)
    (source : Option ℕ) (b : OverlayBroadcast) (bytes : List ℕ) where
  abbrev pub Verifies : List ℕ → Type 0
  Verifies xs = c.verify node_id (make_broadcast_to_sign c xs b.date source) b.signature ≡ true

  -- Data that decompresses to signed data.
  pub signed_data_back :
      decompress z b.bytes ≡ some bytes
      → Verifies bytes
      → signed_data c z choose node_id source b ≡ some bytes
  unfolding signed_data
  signed_data_back back own = rw (back, signed_data, own) refl

  -- Signed data that decompresses to nothing signed.
  pub signed_data_plain :
      b.bytes ≡ bytes
      → Verifies bytes
      → ((out : List ℕ)
          → decompress z bytes ≡ some out
          → c.verify node_id (make_broadcast_to_sign c out b.date source) b.signature ≡ false)
      → signed_data c z choose node_id source b ≡ some bytes
  unfolding signed_data
  signed_data_plain same own only = elim (Option-cases (decompress z bytes)) [
    | inl nothing ↦ rw (signed_data, same, nothing, same, own) refl
    | inr (out, made) ↦ rw (signed_data, same, made, same, only out made, own) refl
  ]
