-- ===== src/Provider/NodeStatus.antt =====
-- server/provider/nodeStatus.go: the blocks that the node status reports, and the counts of peers.
use rosetta_images.Base.{
  ℕ, ◌+◌, ◌-◌, ◌^◌, ◌≤◌, ◌≡◌, ◌⊎◌, Bool, Option, none, some, List, [], ◌∷◌, arith, Bytes, Dict,
  insert, Result, ok, err, ltb, leb, if◌then◌else◌, is_empty, ℤ, pos, negsuc,
}
use rosetta_images.Text.Decimal.{parse_ℤ}
use rosetta_images.Text.Split.{split}
use rosetta_images.Failure.{Failure, cannot_get_latest_block_nonce}

unfoldable pub get_latest_nonce_given_highest_final_nonce : ℕ → Result Failure ℕ
get_latest_nonce_given_highest_final_nonce highest_final_nonce =
    if leb highest_final_nonce 2
    then err cannot_get_latest_block_nonce
    else ok (highest_final_nonce - 2)

-- Go compares `currentEpoch - numHistoricalEpochs`, a signed number that may be below zero, with
-- `firstHistoricalEpoch`; both sides have the number of epochs added here.
unfoldable pub get_oldest_eligible_epoch :
    (first_historical_epoch num_historical_epochs : ℕ) → ℕ → ℕ
get_oldest_eligible_epoch first_historical_epoch num_historical_epochs current_epoch =
    if ltb current_epoch (first_historical_epoch + num_historical_epochs)
    then first_historical_epoch
    else current_epoch - num_historical_epochs

abbrev fits_int32 : ℤ → Bool
fits_int32 (pos n) = ltb n (2 ^ 31)
fits_int32 (negsuc n) = ltb n (2 ^ 31)

-- `strconv.ParseInt(s, 10, 32)`; a count that cannot be parsed is skipped.
abbrev count_if_parsed : Bytes → Option ℤ → Dict ℤ → Dict ℤ
count_if_parsed key none m = m
count_if_parsed key (some count) m = if fits_int32 count then insert key count m else m

abbrev count_part : List Bytes → Dict ℤ → Dict ℤ
count_part (key ∷ count ∷ []) m = count_if_parsed key (parse_ℤ count) m
count_part _ m = m

-- The loop over the parts.
unfoldable pub count_parts : List Bytes → Dict ℤ → Dict ℤ
count_parts [] m = m
count_parts (part ∷ parts) m = count_parts parts (count_part (split part b':') m)

unfoldable pub parse_peers_counts : Bytes → Dict ℤ
unfolding count_parts
parse_peers_counts csv = if is_empty csv then [] else count_parts (split csv b',') []

-- The oldest eligible epoch is historical; it is the first historical epoch, or it is as many
-- epochs ago as the node keeps; and it is not after the current epoch, once the history has begun.
pub get_oldest_eligible_epoch_lem :
    (first num current : ℕ)
    → (first ≤ get_oldest_eligible_epoch first num current)
      × ((get_oldest_eligible_epoch first num current ≡ first)
          ⊎ (get_oldest_eligible_epoch first num current + num ≡ current))
      × (first ≤ current → get_oldest_eligible_epoch first num current ≤ current)
      × (first ≤ current → current ≤ get_oldest_eligible_epoch first num current + num)
unfolding get_oldest_eligible_epoch
get_oldest_eligible_epoch_lem first num current = ground arith
