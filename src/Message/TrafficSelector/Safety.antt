-- ===== src/Message/TrafficSelector/Safety.antt =====
-- Reading selectors returns on every input.
use ike.Base.Reads.{
  Returns-index, Returns-slice, Returns-slice_from, Returns-uint16, eq_of_not_ne, le_of_not_ltb,
  passed,
}
use ike.Base.Bytes.{Bytes}
use ike.Base.{
  List, Returns, Returns-bind, Returns-if, Returns-reject_if, [], arith, length, ltb, not,
  returns_err, returns_ok, suc, zero, ℕ, ◌++◌, ◌+◌, ◌==◌, ◌∷◌, ◌≤◌,
}
use ike.Message.TrafficSelector.{
  IndividualTrafficSelector, read_selector, read_selectors, read_sized, read_typed,
  ts_ipv4_addr_range, ts_ipv6_addr_range,
}

read_sized-Returns : (size : ℕ) (b : Bytes) → 4 ≤ length b → Returns (read_sized size b)
unfolding read_sized
read_sized-Returns size b h = Returns-slice b 2 4 _ (omega arith) (omega arith) λ s l.
    Returns-uint16 s _ (omega arith) λ n _.
      Returns-reject_if (not (n == 8 + (size + size))) _ _ λ e.
        Returns-reject_if (ltb (length b) n) _ _ λ p.
          let long : 8 + (size + size) ≤ length b =
            omega (arith, le_of_not_ltb (length b) n p, eq_of_not_ne n (8 + (size + size)) e) in
          Returns-index b 0 _ (omega arith) λ _. Returns-index b 1 _ (omega arith) λ _.
            Returns-slice b 4 6 _ (omega arith) (omega arith) λ s l.
              Returns-uint16 s _ (omega arith) λ _ _.
                Returns-slice b 6 8 _ (omega arith) (omega arith) λ s l.
                  Returns-uint16 s _ (omega arith) λ _ _.
                    Returns-slice b 8 (8 + size) _ (omega arith) (omega arith) λ _ _.
                      Returns-slice b (8 + size) (8 + (size + size)) _ (omega arith) (omega arith)
                        λ _ _. Returns-slice_from b (8 + (size + size)) _ long λ _ _. returns_ok _

read_typed-Returns : (kind : ℕ) (b : Bytes) → 4 ≤ length b → Returns (read_typed kind b)
unfolding read_typed
read_typed-Returns kind b h =
    Returns-if (kind == ts_ipv4_addr_range) _ _ (λ _. read_sized-Returns 4 b h)
      λ _.
        Returns-if (kind == ts_ipv6_addr_range) _ _ (λ _. read_sized-Returns 16 b h)
          λ _. returns_err _

read_selector-Returns : (b : Bytes) → Returns (read_selector b)
unfolding read_selector
read_selector-Returns b =
    Returns-reject_if (ltb (length b) 4) _ _
      λ p. Returns-index b 0 _ (omega passed) λ kind. read_typed-Returns kind b (omega passed)

-- Reading any number of selectors from any bytes whatever returns selectors or an error.
pub read_selectors-Returns :
    (n : ℕ) (out : List IndividualTrafficSelector) (b : Bytes) → Returns (read_selectors n out b)
unfolding read_selectors
read_selectors-Returns zero out b = returns_ok out
read_selectors-Returns (suc n) out b =
    Returns-bind (read_selector b) _ (read_selector-Returns b)
      λ (s, behind) _. read_selectors-Returns n (out ++ (s ∷ [])) behind
