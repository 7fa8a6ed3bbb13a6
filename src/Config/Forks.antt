-- ===== src/Config/Forks.antt =====
-- The fork whose version signs a slot.
use forcerelay_verifier.Prelude.{ℕ, ◌/◌, ◌≤◌, ◌≡◌, ◌⊎◌, inl, inr, arith, leb, Bool-cases}
use forcerelay_verifier.Config.Types.{Config, Fork, Forks, fork_version}

abbrev pub IsFork : Forks → Fork → Type 0
IsFork forks f =
    (f ≡ forks.genesis) ⊎ (f ≡ forks.altair) ⊎ (f ≡ forks.bellatrix) ⊎ (f ≡ forks.capella)

-- The forks begin in the order of their names, the first at epoch 0.
pub record IsSchedule (forks : Forks) : Type 0 where
  pub from_zero : forks.genesis.epoch ≡ 0
  pub altair_later : forks.genesis.epoch ≤ forks.altair.epoch
  pub bellatrix_later : forks.altair.epoch ≤ forks.bellatrix.epoch
  pub capella_later : forks.bellatrix.epoch ≤ forks.capella.epoch

-- `f` has begun at the epoch, and no fork that has begun is later.
pub record IsLatest (forks : Forks) (epoch : ℕ) (f : Fork) : Type 0 where
  pub is_fork : IsFork forks f
  pub begun : f.epoch ≤ epoch
  pub genesis_before : forks.genesis.epoch ≤ f.epoch
  pub altair_before : forks.altair.epoch ≤ epoch → forks.altair.epoch ≤ f.epoch
  pub bellatrix_before : forks.bellatrix.epoch ≤ epoch → forks.bellatrix.epoch ≤ f.epoch
  pub capella_before : forks.capella.epoch ≤ epoch → forks.capella.epoch ≤ f.epoch

-- On a schedule, the version of a slot is that of the latest fork that has begun in its epoch.
pub fork_version-IsLatest :
    (config : Config) (slot : ℕ)
    → IsSchedule config.forks
    → (f : Fork) × IsLatest config.forks (slot / 32) f × (fork_version config slot ≡ f.fork_version)
unfolding fork_version
fork_version-IsLatest config slot h =
    elim (Bool-cases (leb config.forks.capella.epoch (slot / 32))) [
      | inl c ↦ (config.forks.capella, ground arith, ground arith)
      | inr c ↦ elim (Bool-cases (leb config.forks.bellatrix.epoch (slot / 32))) [
        | inl b ↦ (config.forks.bellatrix, ground arith, ground arith)
        | inr b ↦ elim (Bool-cases (leb config.forks.altair.epoch (slot / 32))) [
          | inl a ↦ (config.forks.altair, ground arith, ground arith)
          | inr a ↦ (config.forks.genesis, ground arith, ground arith)
        ]
      ]
    ]
