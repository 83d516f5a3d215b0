-- ===== src/Message/TrafficSelectorInitiator.antt =====
-- message/payload_trafficselectorinitiator.go: the Traffic Selector payload of the initiator.
use ike.Base.Reads.{Returns-index, Returns-slice_from, passed}
use ike.Base.Bytes.{Bytes, index, slice_from}
use ike.Base.{
  List, Result, Returns, Returns-bind, Returns-if, Returns-reject_if, [], arith, bad_count, err,
  if◌then◌else◌, length, ltb, no_selector, ok, reject_if, returns_ok, too_short, ◌==◌, ◌>>=◌, ◌>>◌,
  ◌∷◌, ◌≡◌, ◌≤◌,
}
use ike.Message.TrafficSelector.{IndividualTrafficSelector, append_selectors, read_selectors}
use ike.Message.TrafficSelector.Laws.{AllFit, selectors_round_trip}
use ike.Message.TrafficSelector.Safety.{read_selectors-Returns}

pub record TrafficSelectorInitiator : Type 0 where
  pub traffic_selectors : List IndividualTrafficSelector

-- `new(TrafficSelectorInitiator)`
abbrev pub empty : TrafficSelectorInitiator
empty = record { traffic_selectors = [] }

unfoldable pub marshal : TrafficSelectorInitiator → Result Bytes
marshal x = do
  reject_if (length x.traffic_selectors == 0) no_selector
  reject_if (ltb 255 (length x.traffic_selectors)) bad_count
  append_selectors (length x.traffic_selectors ∷ 0 ∷ 0 ∷ 0 ∷ []) x.traffic_selectors

read_from : TrafficSelectorInitiator → Bytes → Result TrafficSelectorInitiator
read_from x b = do
  reject_if (ltb (length b) 4) too_short
  number ← index b 0
  rest ← slice_from b 4
  read ← read_selectors number x.traffic_selectors rest
  ok (record { traffic_selectors = read })

unfoldable pub unmarshal : TrafficSelectorInitiator → Bytes → Result TrafficSelectorInitiator
unfolding read_from
unmarshal x b = if ltb 0 (length b) then read_from x b else ok x

-- For at most 255 selectors that fit, the parser undoes the writer, which refuses to write none.
pub initiator_selectors_round_trip :
    (x : TrafficSelectorInitiator)
    → length x.traffic_selectors ≤ 255
    → AllFit x.traffic_selectors
    → (marshal x >>= unmarshal empty)
      ≡ (if length x.traffic_selectors == 0 then err no_selector else ok x)
unfolding marshal unmarshal slice_from index
initiator_selectors_round_trip x few h =
    let (d, written, back) =
      selectors_round_trip x.traffic_selectors (length x.traffic_selectors ∷ 0 ∷ 0 ∷ 0 ∷ []) h in
    ground (arith, back [])

pub unmarshal-Returns : (x : TrafficSelectorInitiator) (b : Bytes) → Returns (unmarshal x b)
unfolding unmarshal
unmarshal-Returns x b =
    Returns-if (ltb 0 (length b)) _ _
      (λ some_bytes. Returns-reject_if (ltb (length b) 4) _ _ λ p.
        Returns-index b 0 _ (omega passed) λ n. Returns-slice_from b 4 _ (omega passed) λ rest _.
          Returns-bind (read_selectors n x.traffic_selectors rest) _
            (read_selectors-Returns n x.traffic_selectors rest) λ _ _. returns_ok _)
      (λ no_bytes. returns_ok x)
