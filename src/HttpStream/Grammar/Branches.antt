-- ===== src/HttpStream/Grammar/Branches.antt =====
-- Rules for the tests of `self.state` at the head of each branch of `app_send`.
use anycorn.Prelude.{refl, some, if◌then◌else◌, Option-cases, inl, inr}
use anycorn.Exec.{gets, skip}
use anycorn.Exec.Hoare.{Triple, T-modify, T-gets, T-raise, T-skip, T-pre}
use anycorn.HttpStream.State.{HttpState, M, is_request, is_response}
use anycorn.HttpStream.Calls.{the_scope}
use anycorn.HttpStream.AppSend.{unexpected, set_state}
use anycorn.HttpStream.Grammar.{
  Phase, awaiting, streaming, Conforms, At, In, Ends, Conforms-In, At-request, At-response, Agrees,
}

-- `self.state`, read where the stream conforms
pub read_state : Triple Conforms Conforms (gets (λ s. s.state)) In
read_state = T-gets _ (λ s h. (h, refl))

pub C-the_scope : Triple Conforms Conforms the_scope (λ _. Conforms)
unfolding the_scope
C-the_scope = record {
  at = λ s h. elim (Option-cases s.scope) [ inl e ↦ rw e h | inr (scope, e) ↦ rw e h ];
}

pub refused : {st : HttpState} → Ends (In st) unexpected
refused {st} = T-raise _ (Conforms-In st)

pub stay : {st : HttpState} → Ends (In st) skip
stay {st} = T-skip (Conforms-In st)

-- `self.state = st`, in a phase of it
pub arrive :
    {p : Phase} (st : HttpState) {old : HttpState}
    → Agrees (some p) st
    → Ends (At p old) (set_state st)
arrive st agree = T-modify _ (λ s h. rw h.0 agree)

-- The test of a branch, with the last `else` behind it.
module _ {m : M (Unit {0})} where
  pub if_request :
      (st : HttpState)
      → Ends (At awaiting HttpState.request) m
      → Ends (In st) (if is_request st then m else unexpected)
  if_request HttpState.request h = T-pre At-request h
  if_request HttpState.response h = refused
  if_request HttpState.trailers h = refused
  if_request HttpState.closed h = refused

  pub if_response :
      (st : HttpState)
      → Ends (At streaming HttpState.response) m
      → Ends (In st) (if is_response st then m else unexpected)
  if_response HttpState.request h = refused
  if_response HttpState.response h = T-pre At-response h
  if_response HttpState.trailers h = refused
  if_response HttpState.closed h = refused
