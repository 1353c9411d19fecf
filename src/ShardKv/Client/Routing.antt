-- ===== src/ShardKv/Client/Routing.antt =====
-- src/shardkv/client.go: the group that the clerk asks, in a configuration of the shard master.
use Prim.Native.String.{String}
use native.Mathlib.Nat.{mod-lt}
use distributed_systems_labs.Base.{
  some-inj, ℕ, zero, suc, ◌<◌, ◌⊎◌, none, ◌≡◌, refl, sym, ap, ◌∙◌, inl, inr, true, some, List, [],
  ◌∷◌, arith, ◌==◌, Bool-cases, length, get_elem?, Returns, Returns-map, elem, sort, occ-sort,
  elem-of_occ,
}
use distributed_systems_labs.ShardMaster.Types.{n_shards, Config, Groups, keys, find}
use distributed_systems_labs.ShardMaster.Rebalance.{rebalance}
use distributed_systems_labs.ShardMaster.Rebalance.Balanced.{Balanced, rebalance-Rebalanced}
use distributed_systems_labs.ShardMaster.Maps.{Ids}
use distributed_systems_labs.KvRaft.Types.{Text}
use distributed_systems_labs.ShardKv.Client.{
  key2shard, Verdict, done, leave_group, next_server, ask_group, ask_shard,
}

find_total :
    (g : ℕ) (m : Groups)
    → elem g (keys m) ≡ true
    → (servers : List String) × (find g m ≡ some servers)
unfolding find
find_total g [] h = absurd (ground arith)
find_total g ((j, w) ∷ m) h = elim (Bool-cases (j == g)) [
  | inl hit ↦ (w, rw hit refl)
  | inr miss ↦ let (servers, at) = find_total g m (rw miss at h) in (servers, rw miss at)
]

key2shard-lt : (key : Text) → key2shard key < n_shards
unfolding key2shard
key2shard-lt [] = mod-lt 0 (omega arith)
key2shard-lt (b ∷ key) = mod-lt b (omega arith)

-- Server `i` of the list ends the loop with `a`, and each server before it is passed by.
pub record AnswersFirst {A : Type 0} (ask : String → Verdict A) (servers : List String) (i : ℕ)
    (a : A) : Type 0 where
  pub srv : String
  pub at : get_elem? servers i ≡ some srv
  pub accepts : ask srv ≡ done a
  pub passed : (j : ℕ) (s : String) → j < i → get_elem? servers j ≡ some s → ask s ≡ next_server

option_clash {ℓ} : {A : Type ℓ} {a : A} → none ≡ some a → ⊥
option_clash e = cc

AnswersFirst-tail :
    {A : Type 0} (ask : String → Verdict A) (srv : String) (servers : List String) (i : ℕ) (a : A)
    → AnswersFirst ask (srv ∷ servers) (suc i) a
    → AnswersFirst ask servers i a
AnswersFirst-tail ask srv servers i a f = record {
  srv = f.srv;
  at = f.at;
  accepts = f.accepts;
  passed = λ j s lt at. f.passed (suc j) s (omega arith) at;
}

ask_group-first :
    {A : Type 0} (ask : String → Verdict A) (servers : List String) (i : ℕ) (a : A)
    → AnswersFirst ask servers i a
    → ask_group servers ask ≡ some a
unfolding ask_group
ask_group-first ask [] i a f = absurd (option_clash f.at)
ask_group-first ask (srv ∷ servers) zero a f = rw (some-inj f.at, f.accepts, ask_group) refl
ask_group-first ask (srv ∷ servers) (suc i) a f =
    rw (f.passed 0 srv (omega arith) refl, ask_group)
      (ask_group-first ask servers i a (AnswersFirst-tail ask srv servers i a f))

AnswersFirst-cons :
    {A : Type 0} (ask : String → Verdict A) (srv : String) (servers : List String) (i : ℕ) (a : A)
    → ask srv ≡ next_server
    → AnswersFirst ask servers i a
    → AnswersFirst ask (srv ∷ servers) (suc i) a
AnswersFirst-cons ask srv servers i a passes f = record {
  srv = f.srv;
  at = f.at;
  accepts = f.accepts;
  passed = passed;
}
  where
    passed :
        (j : ℕ) (s : String)
        → j < suc i
        → get_elem? (srv ∷ servers) j ≡ some s
        → ask s ≡ next_server
    passed zero s lt at = rw (sym (some-inj at)) passes
    passed (suc j) s lt at = f.passed j s (omega arith) at

Verdict-cases :
    {A : Type 0} (v : Verdict A) → ((a : A) × (v ≡ done a)) ⊎ (v ≡ leave_group) ⊎ (v ≡ next_server)
Verdict-cases (done a) = inl (a, refl)
Verdict-cases leave_group = inr (inl refl)
Verdict-cases next_server = inr (inr refl)

first-ask_group :
    {A : Type 0} (ask : String → Verdict A) (servers : List String) (a : A)
    → ask_group servers ask ≡ some a
    → (i : ℕ) × AnswersFirst ask servers i a
unfolding ask_group
first-ask_group ask [] a e = absurd cc
first-ask_group ask (srv ∷ servers) a e = elim (Verdict-cases (ask srv)) [
  | inl (b, accepts) ↦ (
    0,
    record {
      srv = srv;
      at = refl;
      accepts = accepts ∙ ap done (some-inj (rw (accepts, ask_group) at e));
      passed = λ j s lt at. absurd (omega arith);
    },
  )
  | inr (inl leaves) ↦ absurd (option_clash (rw (leaves, ask_group) at e))
  | inr (inr passes) ↦
      let (i, f) = first-ask_group ask servers a (rw (passes, ask_group) at e) in
      (suc i, AnswersFirst-cons ask srv servers i a passes f)
]

-- The group of the key's shard has servers, and a pass ends with a result exactly if one of them
-- gives it and each one before it is passed by.
pub record Routed (config : Config) (key : Text) : Type 1 where
  pub gid : ℕ
  pub servers : List String
  pub owner : get_elem? config.shards (key2shard key) ≡ some gid
  pub known : find gid config.groups ≡ some servers
  pub answered :
      {A : Type 0} (ask : String → Verdict A) (i : ℕ) (a : A)
      → AnswersFirst ask servers i a
      → ask_shard config (key2shard key) ask ≡ some a
  pub asked :
      {A : Type 0} (ask : String → Verdict A) (a : A)
      → ask_shard config (key2shard key) ask ≡ some a
      → (i : ℕ) × AnswersFirst ask servers i a

ask_shard-owner :
    {A : Type 0} (config : Config) (shard gid : ℕ) (servers : List String)
    → get_elem? config.shards shard ≡ some gid
    → find gid config.groups ≡ some servers
    → (ask : String → Verdict A) → ask_shard config shard ask ≡ ask_group servers ask
unfolding ask_shard
ask_shard-owner config shard gid servers owner known ask = rw (owner, known, ask_shard) refl

Balanced-Routed :
    (config : Config) (key : Text)
    → Balanced (sort (keys config.groups)) config.shards
    → Routed config key
Balanced-Routed config key b =
    let (gid, owner, member) = b.owned (key2shard key) (key2shard-lt key) in
    let inside : elem gid (keys config.groups) ≡ true =
      sym (
        elem-of_occ gid (sort (keys config.groups)) (keys config.groups)
          (occ-sort gid (keys config.groups)))
      ∙ member in
    let (servers, known) = find_total gid config.groups inside in
    record {
      gid = gid;
      servers = servers;
      owner = owner;
      known = known;
      answered = λ ask i a f.
          ask_shard-owner config _ gid servers owner known ask ∙ ask_group-first ask servers i a f;
      asked = λ ask a e.
          first-ask_group ask servers a
            (sym (ask_shard-owner config _ gid servers owner known ask) ∙ e);
    }

-- If a configuration has 10 shards and at least one group, its groups have distinct ids, and none
-- is 0, Rebalance returns a configuration in which the shard of every key has a group with a list
-- of servers, and a pass of the sharded clerk for that key ends with a result exactly if one of
-- those servers gives that result and the clerk passes by each server before it.
pub rebalance-Routed :
    (config : Config) (key : Text)
    → length config.shards ≡ n_shards
    → Ids config.groups
    → 0 < length (keys config.groups)
    → Returns (λ after. Routed after key) (rebalance config)
rebalance-Routed config key sized ids some_group =
    Returns-map (rebalance-Rebalanced config sized ids.distinct ids.no_zero some_group)
      λ after r. Balanced-Routed after key (rw r.groups r.balanced)
