-- ===== src/Config/Checkpoints.antt =====
-- config/src/checkpoints.rs: the services that a checkpoint can be fetched from. What the servers
-- answer, and the order in which a `HashMap` is iterated, are parameters.
pub mod Votes
use forcerelay_verifier.Prelude.{
  ℕ, ◌+◌, Bool, true, false, Option, none, some, List, [], ◌∷◌, ◌++◌, map, HashMap, bytes_eq,
  is_none, not, leb, ◌==◌, if◌then◌else◌, Outcome, ok, err, panic, ok_or, unwrap, map_err, ◌>>=◌,
}
use forcerelay_verifier.Common.{Bytes, Text}
use forcerelay_verifier.Config.Networks.{Network, mainnet_network, goerli_network}

pub record StartEndTime : Type 0 where
  pub start_time : Text
  pub end_time : Text

pub record Slot : Type 0 where
  pub slot : ℕ
  pub block_root : Option Bytes
  pub state_root : Option Bytes
  pub epoch : ℕ
  pub time : StartEndTime

pub record RawSlotResponseData : Type 0 where
  pub slots : List Slot

-- the field `data` is `response_data`, since `data` is a keyword
pub record RawSlotResponse : Type 0 where
  pub response_data : RawSlotResponseData

pub record Health : Type 0 where
  pub result : Bool
  pub date : Text

-- without `contacts` and `notes`, YAML values that nothing reads
pub record CheckpointFallbackService : Type 0 where
  pub endpoint : Text
  pub name : Text
  pub state : Bool
  pub verification : Bool
  pub health : List Health

-- the map of the services, as its `get`
pub record CheckpointFallback : Type 0 where
  pub services : Network → Option (List CheckpointFallbackService)
  pub networks : List Network

-- the reports of this file, and `request_failed` for those that reqwest and serde_yaml make
pub data CheckpointError : Type 0 where
  missing_services : Network → CheckpointError
  no_slots no_valid_slots query_failed no_max_epoch no_checkpoint not_in_slot request_failed :
      CheckpointError

abbrev pub CheckpointResult {ℓ} : Type ℓ → Type ℓ
CheckpointResult A = Outcome CheckpointError A

-- `CheckpointFallback::new`
unfoldable pub new_fallback : CheckpointFallback
new_fallback = record {
  services = λ network. none;
  networks = mainnet_network ∷ goerli_network ∷ [];
}

abbrev pub same_network : Network → Network → Bool
same_network mainnet_network mainnet_network = true
same_network goerli_network goerli_network = true
same_network mainnet_network goerli_network = false
same_network goerli_network mainnet_network = false

-- the YAML document: whether it has a list under a network's name, and whether that parses
abbrev pub ServiceList : Type 0
ServiceList = Network → Option (Option (List CheckpointFallbackService))

-- the loop over the networks, with the map that it fills
unfoldable pub parse_services :
    ServiceList
    → List Network
    → (Network → Option (List CheckpointFallbackService))
    → CheckpointResult (Network → Option (List CheckpointFallbackService))
parse_services list [] services = ok services
parse_services list (network ∷ networks) services = do
  service_list ← ok_or (list network) (missing_services network)
  parsed ← ok_or service_list request_failed
  parse_services list networks
      (λ other. if same_network other network then some parsed else services other)

-- `document` is `none` where the request or the parser fails.
unfoldable pub build_fallback :
    Option ServiceList → CheckpointFallback → CheckpointResult CheckpointFallback
unfolding parse_services
build_fallback document fallback = do
  list ← ok_or document request_failed
  services ← parse_services list fallback.networks (λ network. none)
  ok (record fallback { services = services })

-- "/checkpointz/v1/beacon/slots"
abbrev pub slots_path : Text
slots_path =
    0x2f ∷ 0x63 ∷ 0x68 ∷ 0x65 ∷ 0x63 ∷ 0x6b ∷ 0x70 ∷ 0x6f ∷ 0x69 ∷ 0x6e ∷ 0x74 ∷ 0x7a ∷ 0x2f ∷ 0x76
    ∷ 0x31 ∷ 0x2f ∷ 0x62 ∷ 0x65 ∷ 0x61 ∷ 0x63 ∷ 0x6f ∷ 0x6e ∷ 0x2f ∷ 0x73 ∷ 0x6c ∷ 0x6f ∷ 0x74
    ∷ 0x73 ∷ []

unfoldable pub construct_url : Text → Text
construct_url endpoint = endpoint ++ slots_path

-- `iter().find(|s| s.block_root.is_some())`
unfoldable pub find_rooted : List Slot → Option Slot
find_rooted [] = none
find_rooted (s ∷ slots) = if is_none s.block_root then find_rooted slots else some s

-- `iter().max_by_key(key)`, the last of the largest
abbrev pub max_by_key {ℓ} : {A : Type ℓ} → (A → ℕ) → A → List A → A
max_by_key key best [] = best
max_by_key key best (x ∷ xs) = max_by_key key (if leb (key best) (key x) then x else best) xs

-- `*m.entry(root).or_default() += 1`
unfoldable pub increment : Bytes → HashMap ℕ → HashMap ℕ
increment root [] = (root, 1) ∷ []
increment root ((other, n) ∷ m) =
    if bytes_eq root other then (other, n + 1) ∷ m else (other, n) ∷ increment root m

unfoldable pub count_roots : List Bytes → HashMap ℕ → HashMap ℕ
unfolding increment
count_roots [] m = m
count_roots (root ∷ roots) m = count_roots roots (increment root m)

-- `filter_map(|x| x.block_root)` of the slots of the epoch
unfoldable pub roots_at : ℕ → List Slot → List Bytes
roots_at epoch [] = []
roots_at epoch (s ∷ slots) =
    let rest = roots_at epoch slots in
    if s.epoch == epoch then elim s.block_root [ none ↦ rest | some root ↦ root ∷ rest ] else rest

-- the slots that `filter_map` and `filter` leave of the answers
unfoldable pub rooted_slots : List (CheckpointResult Slot) → List Slot
rooted_slots [] = []
rooted_slots (ok s ∷ answers) =
    if is_none s.block_root then rooted_slots answers else s ∷ rooted_slots answers
rooted_slots (_ ∷ answers) = rooted_slots answers

-- `max_by_key(|(_, v)| *v).map(|(k, _)| k)`
unfoldable pub most_voted : List (Bytes × ℕ) → CheckpointResult Bytes
most_voted [] = err no_checkpoint
most_voted (entry ∷ entries) = ok (max_by_key (λ e. e.1) entry entries).0

-- `query url` is the answer of the server to a request, if it can be parsed.
module _ (query : Text → Option RawSlotResponse) (iterate : HashMap ℕ → List (Bytes × ℕ)) where
  unfoldable pub query_service : Text → Option RawSlotResponse
  unfolding construct_url
  query_service endpoint = query (construct_url endpoint)

  -- the task of one service
  unfoldable pub service_slot : CheckpointFallbackService → CheckpointResult Slot
  unfolding query_service find_rooted
  service_slot service = elim (query_service service.endpoint) [
    | none ↦ err query_failed
    | some raw ↦ from_slots raw.response_data.slots
  ]
    where
      from_slots : List Slot → CheckpointResult Slot
      from_slots [] = err no_slots
      from_slots (s ∷ slots) = ok_or (find_rooted (s ∷ slots)) no_valid_slots

  -- what is chosen of the slots that the services gave
  unfoldable pub most_common : List Slot → CheckpointResult Bytes
  unfolding roots_at count_roots most_voted
  most_common [] = err no_max_epoch
  most_common (s ∷ slots) =
      let max_epoch = (max_by_key (λ x. x.epoch) s slots).epoch in
      most_voted (iterate (count_roots (roots_at max_epoch (s ∷ slots)) []))

  unfoldable pub fetch_latest_checkpoint_from_services :
      List CheckpointFallbackService → CheckpointResult Bytes
  unfolding service_slot rooted_slots most_common
  fetch_latest_checkpoint_from_services services =
      most_common (rooted_slots (map service_slot services))

  -- `services.iter().filter(|service| service.state)`
  unfoldable pub healthy : List CheckpointFallbackService → List CheckpointFallbackService
  healthy [] = []
  healthy (service ∷ services) =
      if service.state then service ∷ healthy services else healthy services

  -- `self.services[network]`, which panics where the network has no entry
  unfoldable pub get_fallback_services :
      CheckpointFallback → Network → CheckpointResult (List CheckpointFallbackService)
  get_fallback_services fallback network = unwrap (fallback.services network)

  unfoldable pub get_healthy_fallback_services :
      CheckpointFallback → Network → CheckpointResult (List CheckpointFallbackService)
  unfolding get_fallback_services healthy
  get_healthy_fallback_services fallback network = do
    services ← get_fallback_services fallback network
    ok (healthy services)

  unfoldable get_all_fallback_endpoints :
      CheckpointFallback → Network → CheckpointResult (List Text)
  unfolding get_fallback_services
  get_all_fallback_endpoints fallback network = do
    services ← get_fallback_services fallback network
    ok (map (λ service. service.endpoint) services)

  unfoldable get_healthy_fallback_endpoints :
      CheckpointFallback → Network → CheckpointResult (List Text)
  unfolding get_healthy_fallback_services
  get_healthy_fallback_endpoints fallback network = do
    services ← get_healthy_fallback_services fallback network
    ok (map (λ service. service.endpoint) services)

  unfoldable pub fetch_latest_checkpoint : CheckpointFallback → Network → CheckpointResult Bytes
  unfolding get_healthy_fallback_services fetch_latest_checkpoint_from_services
  fetch_latest_checkpoint fallback network = do
    services ← get_healthy_fallback_services fallback network
    fetch_latest_checkpoint_from_services services

  -- The first slot is taken without a test that there is one.
  unfoldable pub fetch_checkpoint_from_api : Text → CheckpointResult Bytes
  unfolding construct_url
  fetch_checkpoint_from_api url = do
    raw ← ok_or (query (construct_url url)) request_failed
    slot ← unwrap (first raw.response_data.slots)
    ok_or slot.block_root not_in_slot
    where
      first : List Slot → Option Slot
      first [] = none
      first (s ∷ slots) = some s
