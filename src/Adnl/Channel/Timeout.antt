-- ===== src/Adnl/Channel/Timeout.antt =====
-- When a channel of src/adnl/channel.rs is dropped.
use tiny_adnl.Prelude.Bytes.{add32}
use tiny_adnl.Prelude.{ℕ, ◌+◌, ◌^◌, ◌<◌, ◌≡◌, refl, Bool, false, List, [], ◌∷◌, ltb, arith, map}
use tiny_adnl.Adnl.Channel.{Channel, update_drop_timeout, reset_drop_timeout}

-- The answers to queries that time out at these moments, with nothing received in between.
unfoldable pub polls : Channel → ℕ → List ℕ → List Bool
polls ch timeout [] = []
polls ch timeout (now ∷ later) =
    (update_drop_timeout ch now timeout).1
    ∷ polls (update_drop_timeout ch now timeout).0 timeout later

after_first :
    (ch : Channel) (timeout : ℕ) (times : List ℕ)
    → 0 < ch.drop_at
    → polls ch timeout times ≡ map (λ now. ltb ch.drop_at now) times
unfolding polls update_drop_timeout
after_first ch timeout [] h = refl
after_first ch timeout (now ∷ later) h = ground (arith, after_first ch timeout later h)

-- After something was received, the first query that times out only starts the clock, and each later
-- one drops the channel exactly if the timeout has passed since that first one.
pub polls-reset :
    (ch : Channel) (timeout first : ℕ) (times : List ℕ)
    → 0 < first
    → first + timeout < 2 ^ 32
    → polls (reset_drop_timeout ch) timeout (first ∷ times)
      ≡ false ∷ map (λ now. ltb (first + timeout) now) times
unfolding polls update_drop_timeout reset_drop_timeout
polls-reset ch timeout first times h small =
    let e : add32 first timeout ≡ first + timeout = omega arith in
    ground (arith, after_first (record ch { drop_at = add32 first timeout }) timeout times, e)
