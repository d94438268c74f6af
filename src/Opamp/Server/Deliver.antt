-- ===== src/Opamp/Server/Deliver.antt =====
-- internal/opampserver/server.go: a configuration that is pushed reaches its agent.
use cadenza.Prelude.{
  ℕ, ◌≡◌, ◌≢◌, inl, inr, All, ◌∙◌, Bool-cases, refl, ap, String, Bool, true, false, Option, none,
  some, ok, List, [], ◌∷◌, ◌++◌, str_eq, eq_iff, eq_refl, if◌then◌else◌, arith,
}
use cadenza.Models.{Collector}
use cadenza.Opamp.Registry
use cadenza.Opamp.Registry.{StringMap, assign, delete}
use cadenza.Opamp.Server.{
  World, remote_config, AgentMessage, Reply, backfill, take_pending, on_message, config_of,
  or_empty,
}
use cadenza.Opamp.Push.{is_hex, send, set_pending, push_config}

-- The configuration in what is returned for a message.
abbrev pub config_in : Option Reply → Option String
config_in none = none
config_in (some r) = r.config

waiting-backfill :
    (uid : String) (o : Option Collector) (w : World)
    → ((backfill uid o w).waiting ≡ w.waiting) × ((backfill uid o w).outbox ≡ w.outbox)
waiting-backfill uid (some c) w = (refl, refl)
waiting-backfill uid none w = (ground arith, ground arith)

pub waiting-on_message :
    (now conn : ℕ) (msg : AgentMessage) (w : World)
    → msg.instance_uid ≢ ""
    → (on_message now conn msg w).1.waiting ≡ delete msg.instance_uid w.waiting
unfolding on_message take_pending
waiting-on_message now conn msg w named = ground (
  arith,
  eq_iff msg.instance_uid "",
  (waiting-backfill msg.instance_uid (Registry.get msg.instance_uid w.registry) w).0,
)

config-eq :
    (now conn : ℕ) (msg : AgentMessage) (w : World)
    → config_in (on_message now conn msg w).0 ≡ (
        if str_eq msg.instance_uid ""
        then none
        else config_of (or_empty (w.waiting msg.instance_uid)))
unfolding on_message take_pending
config-eq now conn msg w =
    let kept = (waiting-backfill msg.instance_uid (Registry.get msg.instance_uid w.registry) w).0 in
    elim (Bool-cases (str_eq msg.instance_uid "")) [
      | inl e ↦ rw e refl
      | inr e ↦ rw e (ap (λ (f : StringMap String). config_of (or_empty (f msg.instance_uid))) kept)
    ]

config-on_message :
    (now conn : ℕ) (msg : AgentMessage) (w : World) (yaml : String)
    → msg.instance_uid ≢ ""
    → yaml ≢ ""
    → w.waiting msg.instance_uid ≡ some yaml
    → config_in (on_message now conn msg w).0 ≡ some yaml
config-on_message now conn msg w yaml named full there =
    ground (arith, config-eq now conn msg w, eq_iff msg.instance_uid "", eq_iff yaml "")

no_config-on_message :
    (now conn : ℕ) (msg : AgentMessage) (w : World)
    → w.waiting msg.instance_uid ≡ none
    → config_in (on_message now conn msg w).0 ≡ none
no_config-on_message now conn msg w there =
    rw (config-eq now conn msg w, there)
      (elim (Bool-cases (str_eq msg.instance_uid "")) [ inl e ↦ rw e refl | inr e ↦ rw e refl ])

-- A message of an agent that does not concern another one's configuration.
waiting-other :
    (now conn : ℕ) (msg : AgentMessage) (w : World) (uid : String)
    → msg.instance_uid ≢ uid
    → (on_message now conn msg w).1.waiting uid ≡ w.waiting uid
waiting-other now conn msg w uid ne = elim (Bool-cases (str_eq msg.instance_uid "")) [
  | inl e ↦ unfold on_message in ground (arith, e)
  | inr e ↦ ground (
    arith,
    waiting-on_message now conn msg w (λ h. ground (arith, eq_iff msg.instance_uid "")),
    eq_iff msg.instance_uid uid,
  )
]

-- A message, with the time at which it comes and the connection over which.
pub record Heard : Type 0 where
  pub now : ℕ
  pub conn : ℕ
  pub msg : AgentMessage

pub hear : List Heard → World → World
hear [] w = w
hear (h ∷ heard) w = hear heard (on_message h.now h.conn h.msg w).1

-- A configuration is pushed to an agent that is not connected.
module _ (uid yaml : String) (w : World) (away : Registry.conn_of uid w.registry ≡ none)
    (named : uid ≢ "") (full : yaml ≢ "") where
  waiting-push_config : (push_config uid yaml w).1.waiting ≡ assign uid yaml w.waiting
  unfolding push_config set_pending
  waiting-push_config = ground (arith, away)

  waiting-hear :
      (heard : List Heard) (w' : World)
      → All (λ (h : Heard). h.msg.instance_uid ≢ uid) heard
      → (hear heard w').waiting uid ≡ w'.waiting uid
  unfolding hear
  waiting-hear [] w' others = refl
  waiting-hear (h ∷ heard) w' (ne, others) =
      waiting-hear heard (on_message h.now h.conn h.msg w').1 others
      ∙ waiting-other h.now h.conn h.msg w' uid ne

  -- A configuration that is not empty, pushed to an agent that has a uid and is not connected:
  -- whatever messages of other agents come before, at any time and over any connection, it waits,
  -- goes out with the reply to the agent's own next message, and not with the reply to the one
  -- after, whatever others send between the two.
  pub push_config-delivered :
      (before between : List Heard) (now now' conn conn' : ℕ) (msg again : AgentMessage)
      → All (λ (h : Heard). h.msg.instance_uid ≢ uid) before
      → All (λ (h : Heard). h.msg.instance_uid ≢ uid) between
      → msg.instance_uid ≡ uid
      → again.instance_uid ≡ uid
      → let w1 = hear before (push_config uid yaml w).1 in
        let w2 = hear between (on_message now conn msg w1).1 in
        (config_in (on_message now conn msg w1).0 ≡ some yaml)
        × (config_in (on_message now' conn' again w2).0 ≡ none)
  push_config-delivered before between now now' conn conn' msg again others others' same same' =
      let w0 = (push_config uid yaml w).1 in
      let w1 = hear before w0 in
      let w2 = hear between (on_message now conn msg w1).1 in
      let there : w1.waiting uid ≡ some yaml =
        waiting-hear before w0 others ∙ ground (arith, waiting-push_config, eq_refl uid) in
      let gone : w2.waiting uid ≡ none =
        waiting-hear between (on_message now conn msg w1).1 others'
        ∙ ground (arith, waiting-on_message now conn msg w1, eq_refl uid) in
      (
        config-on_message now conn msg w1 yaml (ground arith) full (ground arith),
        no_config-on_message now' conn' again w2 (ground arith),
      )

-- What becomes of a configuration that is pushed.
pub data Pushed (uid yaml : String) (w w' : World) : Type 0 where
  in_flight : w'.outbox ≡ w.outbox ++ (uid, remote_config yaml) ∷ [] → Pushed uid yaml w w'
  held : w'.outbox ≡ w.outbox → w'.waiting uid ≡ some yaml → Pushed uid yaml w w'

-- A push to a uid in hexadecimal is never lost and never an error, whether the agent is connected
-- and whether its connection takes the message: it is sent, or it waits for the agent.
pub push_config-Pushed :
    (uid yaml : String) (w : World)
    → is_hex uid ≡ true
    → ((push_config uid yaml w).0 ≡ ok tt) × Pushed uid yaml w (push_config uid yaml w).1
unfolding push_config set_pending send
push_config-Pushed uid yaml w hex =
    (ground (arith, hex), go (Registry.conn_of uid w.registry) refl w.send_outcomes refl)
  where
    go :
        (o : Option ℕ)
        → Registry.conn_of uid w.registry ≡ o
        → (l : List Bool) → w.send_outcomes ≡ l
        → Pushed uid yaml w (push_config uid yaml w).1
    go none e l h = held (ground arith) (ground (arith, eq_refl uid))
    go (some c) e [] h = in_flight (ground arith)
    go (some c) e (true ∷ rest) h = in_flight (ground arith)
    go (some c) e (false ∷ rest) h = held (ground arith) (ground (arith, eq_refl uid))
