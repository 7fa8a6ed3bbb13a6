-- ===== src/Consensus/Bootstrap/Spec.antt =====
-- What a bootstrap that passes its checks is worth.
use forcerelay_verifier.Prelude.{
  ℕ, ◌-◌, ◌/◌, ◌*◌, ◌+◌, ◌<◌, ◌≤◌, ◌≡◌, ◌↔◌, ◌⊎◌, refl, ap, sym, ◌∙◌, Bool, true, false, Option,
  none, some, ◌++◌, arith, ok, bytes_eq, bytes_eq→eq, drop, is_ok, is_ok→Returns, is_some, u64_mod,
}
use forcerelay_verifier.Common.{Bytes, Node}
use forcerelay_verifier.Config.Types.{Config}
use forcerelay_verifier.Consensus.Types.{Bootstrap}
use forcerelay_verifier.Consensus.Primitives.{Primitives}
use forcerelay_verifier.Consensus.Utils.{is_current_committee_proof_valid}
use forcerelay_verifier.Consensus.State.{ConsensusClient, is_valid_checkpoint}
use forcerelay_verifier.Consensus.Bootstrap.{check_bootstrap, hex_prefix}

-- A `Node` prints as "0x" and its bytes in hexadecimal, and `hex::encode` is injective.
pub record PrintsHex (lib : Primitives) : Type 0 where
  pub node : (n : Node) → lib.node_to_string n ≡ hex_prefix ++ lib.hex_encode n
  pub injective : (a b : Bytes) → lib.hex_encode a ≡ lib.hex_encode b → a ≡ b

-- The age of a slot is that of the slot that the clock is in, and less than the configured bound.
abbrev pub IsFresh : Config → ℕ → ℕ → Type 0
IsFresh config slot now =
    let current_slot = (now - config.chain.genesis_time) / 12 in
    (slot ≤ current_slot) × ((current_slot - slot) * 12 < config.max_checkpoint_age)

-- From genesis on, while the time is below 2 ^ 64 and the timestamp of the slot with the bound added
-- is at most 2 ^ 64, a checkpoint is valid exactly if its slot has begun and its age in slots is less
-- than the bound.
pub is_valid_checkpoint_iff :
    (config : Config) (slot now : ℕ)
    → config.chain.genesis_time ≤ now
    → now < u64_mod
    → slot * 12 + config.chain.genesis_time + config.max_checkpoint_age ≤ u64_mod
    → (is_valid_checkpoint config slot now ≡ ok true) ↔ IsFresh config slot now
unfolding is_valid_checkpoint
is_valid_checkpoint_iff config slot now begun small fits = (λ h. ground arith, λ h. ground arith)

module _ ⦃lib : Primitives⦄ where
  same_root :
      PrintsHex lib
      → (n : Node) (c : Bytes)
      → bytes_eq (lib.node_to_string n) (hex_prefix ++ lib.hex_encode c) ≡ true
      → n ≡ c
  same_root p n c h = p.injective n c (ap (drop 2) (sym (p.node n) ∙ bytes_eq→eq _ _ h))

  check_bootstrap_parts :
      (now : ℕ) (b : Bootstrap) (client : ConsensusClient) (valid proof : Bool) (root : Node)
      → is_valid_checkpoint client.config b.header.slot now ≡ ok valid
      → is_current_committee_proof_valid b.header b.current_sync_committee
          b.current_sync_committee_branch
        ≡ ok proof
      → lib.header_root b.header ≡ some root
      → check_bootstrap now b client ≡ ok tt
      → (bytes_eq (lib.node_to_string root) (hex_prefix ++ lib.hex_encode client.initial_checkpoint)
          ≡ true)
        × (proof ≡ true)
        × ((valid ≡ true) ⊎ (client.config.strict_checkpoint_age ≡ false))
  unfolding check_bootstrap
  check_bootstrap_parts now b client v cv root e f g h = ground arith

  check_bootstrap_returns :
      (now : ℕ) (b : Bootstrap) (client : ConsensusClient)
      → check_bootstrap now b client ≡ ok tt
      → (is_ok (is_valid_checkpoint client.config b.header.slot now) ≡ true)
        × (is_ok (
              is_current_committee_proof_valid b.header b.current_sync_committee
                b.current_sync_committee_branch)
            ≡ true)
        × (is_some (lib.header_root b.header) ≡ true)
  unfolding check_bootstrap
  check_bootstrap_returns now b client h = ground arith

  some_of_is_some {ℓ} : {A : Type ℓ} (o : Option A) → is_some o ≡ true → (a : A) × (o ≡ some a)
  some_of_is_some none h = cc
  some_of_is_some (some a) h = (a, refl)

  -- Where a `Node` prints as "0x" and its hexadecimal digits, and different bytes have different
  -- digits, a bootstrap that passes has the initial checkpoint for the root of its header, its
  -- committee is proved in that header, and its slot is a valid checkpoint unless the configuration
  -- does not ask for that.
  pub check_bootstrap_sound :
      PrintsHex lib
      → (now : ℕ) (b : Bootstrap) (client : ConsensusClient) → check_bootstrap now b client ≡ ok tt
      → (lib.header_root b.header ≡ some client.initial_checkpoint)
        × (is_current_committee_proof_valid b.header b.current_sync_committee
              b.current_sync_committee_branch
            ≡ ok true)
        × ((is_valid_checkpoint client.config b.header.slot now ≡ ok true)
            ⊎ (client.config.strict_checkpoint_age ≡ false))
  check_bootstrap_sound prints now b client h =
      let (p, q, r) = check_bootstrap_returns now b client h in
      go (is_ok→Returns _ p) (is_ok→Returns _ q) (some_of_is_some _ r)
    where
      go :
          ((v : Bool) × (is_valid_checkpoint client.config b.header.slot now ≡ ok v))
          → ((c : Bool) × (is_current_committee_proof_valid b.header b.current_sync_committee
                  b.current_sync_committee_branch
                ≡ ok c))
          → ((root : Node) × (lib.header_root b.header ≡ some root))
          → (lib.header_root b.header ≡ some client.initial_checkpoint)
            × (is_current_committee_proof_valid b.header b.current_sync_committee
                  b.current_sync_committee_branch
                ≡ ok true)
            × ((is_valid_checkpoint client.config b.header.slot now ≡ ok true)
                ⊎ (client.config.strict_checkpoint_age ≡ false))
      go (v, e) (c, f) (root, g) =
          let (same, proved, fresh) = check_bootstrap_parts now b client v c root e f g h in
          let k = same_root prints root client.initial_checkpoint same in
          (rw (g, k) refl, rw (f, proved) refl, ground (arith, fresh))
