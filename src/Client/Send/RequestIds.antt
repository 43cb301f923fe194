-- ===== src/Client/Send/RequestIds.antt =====
-- The request ids that `build_message` gives out.
use sc4051_distributed_banki.Base.{ℕ, zero, suc, ◌+◌, ◌%◌, ◌^◌, ◌<◌, ◌≡◌, ◌≢◌, refl, arith}
use sc4051_distributed_banki.Memory.{Bytes}
use sc4051_distributed_banki.Protocol.{Message}
use sc4051_distributed_banki.Client.State.{Client}
use sc4051_distributed_banki.Client.Send.{build_message, at_most_once}

module _ (contents : ℕ → Bytes) where
  -- The client behind n requests.
  abbrev pub state_after : ℕ → Client → Client
  state_after zero c = c
  state_after (suc n) c = (build_message (contents n) (state_after n c)).1

  -- The n-th request, counted from 0.
  abbrev pub request : ℕ → Client → Message
  request n c = (build_message (contents n) (state_after n c)).0

  state_after_flag :
      (n : ℕ) (c : Client) → c.flag ≡ at_most_once → (state_after n c).flag ≡ at_most_once
  unfolding build_message
  state_after_flag zero c h = h
  state_after_flag (suc n) c h = rw (state_after_flag n c h) refl

  state_after_count :
      (n : ℕ) (c : Client)
      → c.flag ≡ at_most_once
      → c.current_request_id < 2 ^ 32
      → (state_after n c).current_request_id ≡ (c.current_request_id + n) % 2 ^ 32
  unfolding build_message
  state_after_count zero c h low = omega arith
  state_after_count (suc n) c h low =
      rw (state_after_flag n c h) (omega (arith, state_after_count n c h low))

  request_id_count :
      (n : ℕ) (c : Client)
      → c.flag ≡ at_most_once
      → c.current_request_id < 2 ^ 32
      → (request n c).id.request_id ≡ (c.current_request_id + n + 1) % 2 ^ 32
  unfolding build_message
  request_id_count n c h low =
      rw (state_after_flag n c h) (omega (arith, state_after_count n c h low))

  -- A client that invokes at most once gives any two of 2^32 requests in a row different ids, whatever
  -- their contents.
  pub request_ids_differ :
      (i j : ℕ) (c : Client)
      → c.flag ≡ at_most_once
      → c.current_request_id < 2 ^ 32
      → i < j
      → j < 2 ^ 32 + i
      → (request i c).id.request_id ≢ (request j c).id.request_id
  request_ids_differ i j c h low less near same =
      omega (arith, request_id_count i c h low, request_id_count j c h low)
