-- ===== src/En50221/Link.antt =====
-- What the session layer needs of the transport layer below it: `en50221_tl_send_data`,
-- `en50221_tl_get_error`, and what waits to be sent.
pub mod OfLayer
use dvb_apps.Common.{
  ℕ, ◌+◌, ◌^◌, ◌<◌, ◌≡◌, ◌≢◌, ◌⊎◌, Bool, true, false, Option, List, [], ◌∷◌, ◌++◌, length,
}
use dvb_apps.En50221.Transport.{ErrorCode, t_data_last}
use dvb_apps.En50221.Transport.Frame.{frame}

-- `queue tl i c` is the messages that wait for connection `c` of slot `i`.
pub record TransportLink (T : Type 0) : Type 0 where
  pub send_data : T → ℕ → ℕ → List ℕ → Bool × T
  pub get_error : T → Option ErrorCode
  pub queue : T → ℕ → ℕ → List (List ℕ)
  -- Data that is taken waits as one message behind the others.
  pub send_data-queue :
      (tl : T) (i c : ℕ) (bytes : List ℕ)
      → length bytes + 1 < 2 ^ 16
      → (send_data tl i c bytes).0 ≡ true
      → queue ((send_data tl i c bytes).1) i c ≡ queue tl i c ++ (frame t_data_last c bytes ∷ [])
  -- No other queue changes, and none does where the data is refused.
  pub send_data-other :
      (tl : T) (i c : ℕ) (bytes : List ℕ) (j d : ℕ)
      → ((send_data tl i c bytes).0 ≡ false) ⊎ ((i ≢ j) ⊎ (c ≢ d))
      → queue ((send_data tl i c bytes).1) j d ≡ queue tl j d
