-- ===== src/Sockets/Supersede.antt =====
-- A reconnect supersedes the old socket, and the old one's late disconnect does not undo it.
use backplaned_agents.Prelude.{
  ◌==◌, nat_eq, list_eq, option_eq, Text, text_iff, lookup-insert, lookup-erase, lookup-insert_self,
  lookup, erase, ◌≡◌, refl, ap, ◌∙◌, ◌⊎◌, inl, inr, Bool, false, Option, none, some, List, [], ◌∷◌,
  arith, Bool-cases, Option-cases, All,
}
use backplaned_agents.Sockets.{
  Entry, Registry, is_entry, attach, take_off, detach, consume_resume, expire_resume, get,
}

-- the calls of the registry that change it
pub data Call : Type 0 where
  attaches : Entry → Call
  detaches : Text → Bool → Option Entry → Call
  consumes : Text → Text → Call
  expires : Text → Entry → Call

unfoldable pub call : Registry → Call → Registry
call reg (attaches entry) = (attach reg entry).0
call reg (detaches agent_id into_resume expected) = (detach reg agent_id into_resume expected).0
call reg (consumes agent_id token) = (consume_resume reg agent_id token).0
call reg (expires agent_id entry) = (expire_resume reg agent_id entry).0

unfoldable pub calls : Registry → List Call → Registry
unfolding call
calls reg [] = reg
calls reg (c ∷ more) = calls (call reg c) more

-- a call that leaves the entry alone: no other connection of its agent, and no disconnect of its
-- agent but of another entry
abbrev pub IsOther : Entry → Call → Type 0
IsOther entry (attaches new) = (new.agent_id == entry.agent_id) ≡ false
IsOther entry (detaches agent_id into_resume none) = (agent_id == entry.agent_id) ≡ false
IsOther entry (detaches agent_id into_resume (some expected)) =
    ((agent_id == entry.agent_id) ≡ false) ⊎ ((entry.identity == expected.identity) ≡ false)
IsOther entry (consumes agent_id token) = Unit
IsOther entry (expires agent_id parked) = Unit

take_off-live :
    (reg : Registry) (agent_id id : Text) (into_resume : Bool)
    → (agent_id == id) ≡ false
    → lookup id (take_off reg agent_id into_resume).0.live ≡ lookup id reg.live
unfolding take_off
take_off-live reg agent_id id into_resume n = elim (Option-cases (lookup agent_id reg.live)) [
  | inl e ↦ rw (e, take_off) refl
  | inr (entry, e) ↦ rw (e, take_off) (rw (lookup-erase agent_id id reg.live, n) refl)
]

call-live :
    (reg : Registry) (entry : Entry) (c : Call)
    → IsOther entry c
    → lookup entry.agent_id reg.live ≡ some entry
    → lookup entry.agent_id (call reg c).live ≡ some entry
unfolding call attach detach consume_resume expire_resume
call-live reg entry (attaches new) n h =
    rw
      (
        lookup-insert new.agent_id entry.agent_id new (erase new.agent_id reg.live),
        n,
        lookup-erase new.agent_id entry.agent_id reg.live,
        n,
      )
      h
call-live reg entry (detaches agent_id into_resume none) n h =
    take_off-live reg agent_id entry.agent_id into_resume n ∙ h
call-live reg entry (detaches agent_id into_resume (some expected)) n h =
    elim (Bool-cases (agent_id == entry.agent_id)) [
      | inr m ↦ elim (Bool-cases (is_entry (lookup agent_id reg.live) expected)) [
        | inl y ↦ rw (y, call, detach) (take_off-live reg agent_id entry.agent_id into_resume m ∙ h)
        | inr f ↦ rw (f, call, detach) h
      ]
      | inl m ↦ elim n [
        | inl differs ↦ absurd (ground (arith, m, differs))
        | inr old ↦
            let here : lookup agent_id reg.live ≡ some entry =
              ap (λ t. lookup t reg.live) ((text_iff agent_id entry.agent_id).0 m) ∙ h in
            let stale : is_entry (lookup agent_id reg.live) expected ≡ false = rw here old in
            rw (stale, call, detach) h
      ]
    ]
call-live reg entry (consumes agent_id token) n h = ground (arith, h)
call-live reg entry (expires agent_id parked) n h = ground (arith, h)

calls-live :
    (more : List Call) (reg : Registry) (entry : Entry)
    → All (IsOther entry) more
    → lookup entry.agent_id reg.live ≡ some entry
    → lookup entry.agent_id (calls reg more).live ≡ some entry
unfolding calls
calls-live [] reg entry others h = h
calls-live (c ∷ more) reg entry others h =
    calls-live more (call reg c) entry others.1 (call-live reg entry c others.0 h)

-- A socket that is attached stays the one that frames for its agent go to, whatever other agents do
-- and however late the disconnects of older sockets of the same agent come, as long as none is
-- attached for its agent and no call detaches it, by itself or by its agent's name alone.
pub newest_stays :
    (reg : Registry) (entry : Entry) (more : List Call)
    → All (IsOther entry) more
    → get (calls (attach reg entry).0 more) entry.agent_id ≡ some entry
unfolding get attach
newest_stays reg entry more others =
    calls-live more (attach reg entry).0 entry others
      (lookup-insert_self entry.agent_id entry (erase entry.agent_id reg.live))
