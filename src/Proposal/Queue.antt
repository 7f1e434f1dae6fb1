-- ===== src/Proposal/Queue.antt =====
-- cognitive/proposal.py: `ProposalQueue`, over any type of proposals that have an id. `attached` is
-- what `update` records besides the status, over any type of evidence.
use trading_control.Prelude.{
  ◌≡◌, refl, Bool, true, false, Option, none, some, List, [], ◌∷◌, ◌++◌, String, str_eq, arith,
  eq_iff, ap, ◌∙◌, any, if◌then◌else◌, Bool-cases, inl, inr,
}
use trading_control.Proposal.{Proposal, ProposalStatus}

pub record QueueEntry (W V : Type 0) : Type 0 where
  pub proposal : Proposal W
  pub status : ProposalStatus
  pub attached : Option V

-- The keyword arguments of `update`: what is not named keeps its value.
pub record Changes (V : Type 0) : Type 0 where
  pub status : Option ProposalStatus
  pub attached : Option V

same_key : (k : String) → str_eq k k ≡ true
same_key k = ground (arith, eq_iff k k)

if_cons :
    {A : Type 0} (b : Bool) (x : A) (xs ys : List A)
    → x ∷ (if b then xs else ys) ≡ (if b then x ∷ xs else x ∷ ys)
if_cons true x xs ys = refl
if_cons false x xs ys = refl

module _ {W V : Type 0} where
  unfoldable pub add : List (QueueEntry W V) → Proposal W → ProposalStatus → List (QueueEntry W V)
  add entries p status = entries ++ (record { proposal = p; status = status; attached = none } ∷ [])

  abbrev pub has_id : String → QueueEntry W V → Bool
  has_id id e = str_eq e.proposal.proposal_id id

  unfoldable pub set_fields : Changes V → QueueEntry W V → QueueEntry W V
  set_fields c e = record e {
    status = elim c.status [ none ↦ e.status | some s ↦ s ];
    attached = elim c.attached [ none ↦ e.attached | some v ↦ some v ];
  }

  unfoldable pub update : List (QueueEntry W V) → String → Changes V → List (QueueEntry W V)
  unfolding set_fields
  update [] id c = []
  update (e ∷ es) id c = if has_id id e then set_fields c e ∷ es else e ∷ update es id c

  update-append :
      (es : List (QueueEntry W V)) (e : QueueEntry W V) (c : Changes V)
      → update (es ++ (e ∷ [])) e.proposal.proposal_id c ≡ (
          if any (has_id e.proposal.proposal_id) es
          then update es e.proposal.proposal_id c ++ (e ∷ [])
          else es ++ (set_fields c e ∷ []))
  unfolding update
  update-append [] e c = rw (same_key e.proposal.proposal_id) refl
  update-append (d ∷ es) e c = elim (Bool-cases (has_id e.proposal.proposal_id d)) [
    | inl same_ ↦ rw same_ refl
    | inr other ↦ rw other (
        ap (λ r. d ∷ r) (update-append es e c)
        ∙ if_cons (any (has_id e.proposal.proposal_id) es) d _ _)
  ]

  -- An update of the proposal that was just added changes the new entry only if no older entry has
  -- its id. Otherwise it changes the first of those, and the new entry stays as it was added.
  pub update-add :
      (es : List (QueueEntry W V)) (p : Proposal W) (status : ProposalStatus) (c : Changes V)
      → let e : QueueEntry W V = record { proposal = p; status = status; attached = none } in
        update (add es p status) p.proposal_id c ≡ (
          if any (has_id p.proposal_id) es
          then update es p.proposal_id c ++ (e ∷ [])
          else es ++ (set_fields c e ∷ []))
  unfolding add
  update-add es p status c =
      update-append es (record { proposal = p; status = status; attached = none }) c
