-- ===== src/Services/Blocks/Chain.antt =====
-- How the blocks that /block answers hang together, and what it answers otherwise.
use rosetta_images.Base.{
  ◌+◌, ◌-◌, ◌%◌, ◌^◌, ◌≤◌, ◌<◌, ◌≡◌, refl, sym, ◌∙◌, ap, ◌⊎◌, inl, inr, arith, ok, map_err,
  ok-injective, >>=-eq-ok, false, ◌==◌, nat_eq,
}
use rosetta_images.Api.{Block, Libraries}
use rosetta_images.Rosetta.{RosettaBlock}
use rosetta_images.Services.Interface.{NetworkProvider}
use rosetta_images.Services.Converters.{block_to_identifier}
use rosetta_images.Services.Extension.{get_genesis_block_identifier}
use rosetta_images.Services.Transformer.{transform_block_txs}
use rosetta_images.Services.Blocks.{
  convert_to_rosetta_block, create_genesis_operations, do_get_genesis_block,
  parent_block_identifier,
}

module _ ⦃lib : Libraries⦄ (provider : NetworkProvider) where
  identifiers-of_converted :
      (block : Block) {answered : RosettaBlock}
      → convert_to_rosetta_block provider block ≡ ok answered
      → (answered.block_identifier ≡ block_to_identifier block)
        × (answered.parent_block_identifier ≡ parent_block_identifier provider block)
  unfolding convert_to_rosetta_block
  identifiers-of_converted block e =
      let (transactions, _, last) = >>=-eq-ok (transform_block_txs provider block) _ e in
      let same = ok-injective last in
      (
        ap (λ (b : RosettaBlock). b.block_identifier) (sym same),
        ap (λ (b : RosettaBlock). b.parent_block_identifier) (sym same),
      )

  parent-of_child :
      (parent child : Block)
      → child.nonce < 2 ^ 64
      → child.nonce ≡ parent.nonce + 1
      → 1 ≤ parent.nonce
      → child.prev_block_hash ≡ parent.hash
      → parent_block_identifier provider child ≡ block_to_identifier parent
  unfolding parent_block_identifier block_to_identifier
  parent-of_child parent child small follows above_genesis linked =
      rw (not_first, before, linked) refl
    where
      not_first : (child.nonce == 1) ≡ false
      not_first = ground arith

      before : (child.nonce + 2 ^ 64 - 1) % 2 ^ 64 ≡ parent.nonce
      before = omega arith

  genesis_identifier :
      {genesis : RosettaBlock}
      → do_get_genesis_block provider ≡ ok genesis
      → genesis.block_identifier ≡ get_genesis_block_identifier provider
  unfolding do_get_genesis_block
  genesis_identifier e =
      let (balances, _, rest) = >>=-eq-ok (map_err _ provider.get_genesis_balances) _ e in
      let (operations, _, last) =
        >>=-eq-ok (map_err _ (create_genesis_operations provider balances)) _ rest in
      ap (λ (b : RosettaBlock). b.block_identifier) (sym (ok-injective last))

  parent-of_first :
      (first : Block)
      → first.nonce ≡ 1
      → parent_block_identifier provider first ≡ get_genesis_block_identifier provider
  unfolding parent_block_identifier
  parent-of_first first e = rw e refl

  -- Let a block of the node follow another by nonce and by hash. Then the answer for it names as
  -- its parent what the answer for the other names as its own identifier, also where the other is
  -- the genesis block, whose answer comes from the genesis balances.
  pub convert_to_rosetta_block-linked :
      (parent child : Block) (p c : RosettaBlock)
      → child.nonce < 2 ^ 64
      → child.nonce ≡ parent.nonce + 1
      → child.prev_block_hash ≡ parent.hash
      → convert_to_rosetta_block provider child ≡ ok c
      → ((1 ≤ parent.nonce) × (convert_to_rosetta_block provider parent ≡ ok p))
        ⊎ ((parent.nonce ≡ 0) × (do_get_genesis_block provider ≡ ok p))
      → c.parent_block_identifier ≡ p.block_identifier
  convert_to_rosetta_block-linked parent child p c small follows linked ec (inl (above, ep)) =
      (identifiers-of_converted child ec).1
      ∙ parent-of_child parent child small follows above linked
      ∙ sym (identifiers-of_converted parent ep).0
  convert_to_rosetta_block-linked parent child p c small follows linked ec (inr (at_genesis, ep)) =
      (identifiers-of_converted child ec).1
      ∙ parent-of_first child (omega (arith, follows, at_genesis))
      ∙ sym (genesis_identifier ep)
