-- ===== src/Tests/Config.antt =====
-- The theorems on config/src, on the mainnet.
use forcerelay_verifier.Prelude.{
  ℕ, ◌≡◌, refl, sym, List, [], ◌∷◌, map, Option, none, some, true, false, Bool-cases, inl, inr,
  bytes_eq, bytes_eq→eq, length, HashMap, hash_get, get_elem?, ok, some-injective, ltb,
  if◌then◌else◌,
}
use forcerelay_verifier.Common.{Bytes, Text}
use forcerelay_verifier.Config.Checkpoints.{
  Slot, RawSlotResponse, CheckpointFallbackService, service_slot, rooted_slots, count_roots,
  increment, roots_at, find_rooted, most_common, most_voted, query_service, construct_url,
  fetch_latest_checkpoint_from_services,
}
use forcerelay_verifier.Config.Checkpoints.Votes.{
  IsIteration, IsMostVoted, latest_roots, fetch_latest_checkpoint-IsMostVoted,
}
use forcerelay_verifier.Config.Types.{Config, fork_version}
use forcerelay_verifier.Prelude.{Outcome, err, leb}
use forcerelay_verifier.Common.Numbers.{codes}
use forcerelay_verifier.Config.CommandLine.{CliConfig}
use forcerelay_verifier.Config.Loading.{
  Provider, base, FigmentError, missing_field, other_kind, dashed, report, from_file,
}
use forcerelay_verifier.Config.Forks.{IsSchedule}
use forcerelay_verifier.Config.Networks.{
  mainnet_network, mainnet, to_base_config, networks-IsSchedule,
}

abbrev mainnet_config : Config
mainnet_config = record {
  consensus_rpc = [];
  execution_rpc = [];
  rpc_bind_ip = none;
  rpc_port = none;
  default_checkpoint = mainnet.default_checkpoint;
  checkpoint = none;
  data_dir = none;
  chain = mainnet.chain;
  forks = mainnet.forks;
  max_checkpoint_age = mainnet.max_checkpoint_age;
  fallback = none;
  load_external_fallback = false;
  strict_checkpoint_age = false;
}

-- a slot of the Capella fork
capella_slot : fork_version mainnet_config 6209536 ≡ 3 ∷ 0 ∷ 0 ∷ 0 ∷ []
unfolding fork_version
capella_slot = refl

mainnet-IsSchedule : IsSchedule mainnet.forks
unfolding to_base_config
mainnet-IsSchedule = networks-IsSchedule mainnet_network

abbrev slot_of : ℕ → Bytes → Slot
slot_of epoch block_root = record {
  slot = epoch;
  block_root = some block_root;
  state_root = none;
  epoch = epoch;
  time = record { start_time = []; end_time = [] };
}

-- A server with an endpoint of one byte answers for an epoch before the others.
abbrev query : Text → Option RawSlotResponse
query url = some (record {
  response_data = record {
    slots =
        (if ltb 29 (length url)
          then slot_of 8 (2 ∷ [])
          else if ltb 28 (length url)
          then slot_of 7 (3 ∷ [])
          else slot_of 8 (1 ∷ []))
        ∷ [];
  };
})

abbrev service : Text → CheckpointFallbackService
service endpoint = record {
  endpoint = endpoint;
  name = [];
  state = true;
  verification = true;
  health = [];
}

abbrev services : List CheckpointFallbackService
services = service (0 ∷ 0 ∷ []) ∷ service (0 ∷ []) ∷ service [] ∷ service (0 ∷ 0 ∷ 0 ∷ []) ∷ []

abbrev counts : HashMap ℕ
counts = (2 ∷ [], 2) ∷ (1 ∷ [], 1) ∷ []

counts-IsIteration : IsIteration counts counts
unfolding bytes_eq
counts-IsIteration = record { only = (refl, (refl, tt)); all = λ k n e. visit k n e }
  where
    visit :
        (k : Bytes) (n : ℕ)
        → hash_get k counts ≡ some n
        → (i : ℕ) × (get_elem? counts i ≡ some (k, n))
    visit k n e = elim (Bool-cases (bytes_eq k (2 ∷ []))) [
      | inl p ↦ (0, λ i. some (sym (bytes_eq→eq k (2 ∷ []) p) i, some-injective (rw p at e) i))
      | inr p ↦ elim (Bool-cases (bytes_eq k (1 ∷ []))) [
        | inl q ↦
            (1, λ i. some (sym (bytes_eq→eq k (1 ∷ []) q) i, some-injective (rw (p, q) at e) i))
        | inr q ↦ (let e' = rw (p, q) at e in cc)
      ]
    ]

fetches : fetch_latest_checkpoint_from_services query (λ m. m) services ≡ ok (2 ∷ [])
unfolding fetch_latest_checkpoint_from_services service_slot query_service construct_url find_rooted
    rooted_slots most_common roots_at count_roots increment most_voted bytes_eq
fetches = refl

counted :
    count_roots (latest_roots (rooted_slots (map (service_slot query (λ m. m)) services))) []
    ≡ counts
unfolding service_slot query_service construct_url find_rooted rooted_slots roots_at count_roots
    increment bytes_eq
counted = refl

fetch_latest_checkpoint-IsMostVoted_example :
    IsMostVoted (2 ∷ []) (latest_roots (rooted_slots (map (service_slot query (λ m. m)) services)))
fetch_latest_checkpoint-IsMostVoted_example =
    fetch_latest_checkpoint-IsMostVoted query (λ m. m) services (rw counted counts-IsIteration)
      fetches

-- A network that is not known has the default base configuration, and figment reads that first.
abbrev seen : List Provider → Text → Outcome FigmentError Config
seen (base config profile ∷ rest) network =
    if leb 1 config.rpc_port then ok mainnet_config else err (missing_field (codes "execution_rpc"))
seen providers network = err (other_kind [])

abbrev options : CliConfig
options = record {
  execution_rpc = none;
  consensus_rpc = none;
  checkpoint = none;
  rpc_bind_ip = none;
  rpc_port = none;
  data_dir = codes "data";
  fallback = none;
  load_external_fallback = false;
  strict_checkpoint_age = false;
}

loads_mainnet :
    from_file seen (λ b. b) (λ ip. []) some (codes "helios.toml") (codes "mainnet") options
    ≡ ok mainnet_config
unfolding from_file bytes_eq
loads_mainnet = refl

names_the_argument :
    from_file seen (λ b. b) (λ ip. []) some (codes "helios.toml") (codes "sepolia") options
    ≡ err (report (missing_field (codes "execution_rpc")))
unfolding from_file bytes_eq
names_the_argument = refl

dashes : dashed (codes "execution_rpc") ≡ codes "execution-rpc"
dashes = refl
