-- ===== src/Sockets.antt =====
-- bp_router/ws_hub.py: `SocketRegistry`, the sockets of connected agents and those that wait to be
-- resumed. A socket entry is an object: its number stands for its identity (`is`).
mod Supersede
mod Examples
use backplaned_agents.Prelude.{
  Eq, ◌==◌, nat_eq, list_eq, option_eq, Text, Dict, lookup, insert, erase, ℕ, zero, suc, Bool, true,
  false, not, Option, none, some, arith, if◌then◌else◌,
}

pub record Entry : Type 0 where
  pub identity : ℕ
  pub agent_id : Text
  pub session_token : Text

pub record Registry : Type 0 where
  pub live : Dict Text Entry
  pub resume : Dict Text Entry

-- `found is entry`
abbrev pub is_entry : Option Entry → Entry → Bool
is_entry none entry = false
is_entry (some found) entry = found.identity == entry.identity

-- the registry, and the entry that was superseded
unfoldable pub attach : Registry → Entry → Registry × Option Entry
unfolding lookup erase insert
attach reg entry = (
  record reg { live = insert entry.agent_id entry (erase entry.agent_id reg.live) },
  lookup entry.agent_id reg.live,
)

-- the pop of `detach`
unfoldable pub take_off : Registry → Text → Bool → Registry × Option Entry
unfolding lookup erase insert
take_off reg agent_id into_resume = elim (lookup agent_id reg.live) [
  | none ↦ (reg, none)
  | some entry ↦ (
    record {
      live = erase agent_id reg.live;
      resume = if into_resume then insert agent_id entry reg.resume else reg.resume;
    },
    some entry,
  )
]

unfoldable pub detach : Registry → Text → Bool → Option Entry → Registry × Option Entry
unfolding lookup take_off
detach reg agent_id into_resume none = take_off reg agent_id into_resume
detach reg agent_id into_resume (some expected) =
    if not (is_entry (lookup agent_id reg.live) expected)
    then (reg, none)
    else take_off reg agent_id into_resume

unfoldable pub consume_resume : Registry → Text → Text → Registry × Option Entry
unfolding lookup erase
consume_resume reg agent_id token = elim (lookup agent_id reg.resume) [
  | none ↦ (reg, none)
  | some entry ↦
      if not (entry.session_token == token)
      then (reg, none)
      else (record reg { resume = erase agent_id reg.resume }, some entry)
]

unfoldable pub expire_resume : Registry → Text → Entry → Registry × Bool
unfolding lookup erase
expire_resume reg agent_id entry =
    if not (is_entry (lookup agent_id reg.resume) entry)
    then (reg, false)
    else (record reg { resume = erase agent_id reg.resume }, true)

-- `get`
unfoldable pub get : Registry → Text → Option Entry
unfolding lookup
get reg agent_id = lookup agent_id reg.live
