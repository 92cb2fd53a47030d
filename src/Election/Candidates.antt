-- ===== src/Election/Candidates.antt =====
-- How `StartElection` of backend/dfs/election/bully.go goes on.
use distributed_file_system.Prelude.{
  ℕ, ◌≡◌, ◌≢◌, refl, sym, subst, some, ◌↔◌, List-cases, In-nil, true, false, List, [], ◌∷◌,
  Bool-cases, inl, inr, In, head, tail, arith,
}
use distributed_file_system.Prelude.Int.{ℤ, ◌<ℤ◌, lt_int}
use distributed_file_system.Prelude.Map.{In-cons}
use distributed_file_system.Common.Types.{NodeInfo, election, nil_id}
use distributed_file_system.Common.Messages.{Outgoing, node_info_json}
use distributed_file_system.Node.{Node, get_peers, get_node_info}
use distributed_file_system.Election.{
  BullyElector, candidates, ask, Course, skipped, waits, leads, start_election,
}

lt_of-lt_int : (a b : ℤ) → lt_int a b ≡ true → a <ℤ b
lt_of-lt_int a b h = ground arith

lt_int_of_lt : (a b : ℤ) → a <ℤ b → lt_int a b ≡ true
lt_int_of_lt a b h = ground arith

candidates-In :
    (own : ℤ) (peer : NodeInfo) (peers : List NodeInfo)
    → In peer (candidates own peers)
    → In peer peers × (own <ℤ peer.priority)
unfolding candidates
candidates-In own peer [] i = elim i [ ]
candidates-In own peer (q ∷ peers) i = elim (Bool-cases (lt_int own q.priority)) [
  | inl e ↦ elim (In-cons (rw (e, candidates) at i)) [
    | inl same ↦
        (head same, subst (λ z. own <ℤ z.priority) (sym same) (lt_of-lt_int own q.priority e))
    | inr j ↦ let r = candidates-In own peer peers j in (tail r.0, r.1)
  ]
  | inr e ↦ let r = candidates-In own peer peers (rw (e, candidates) at i) in (tail r.0, r.1)
]

candidates_complete :
    (own : ℤ) (peer : NodeInfo) (peers : List NodeInfo)
    → In peer peers
    → own <ℤ peer.priority
    → In peer (candidates own peers)
unfolding candidates
candidates_complete own peer [] i less = elim i [ ]
candidates_complete own peer (q ∷ peers) (head same) less =
    let higher : lt_int own q.priority ≡ true =
      lt_int_of_lt own q.priority (subst (λ z. own <ℤ z.priority) same less) in
    rw (higher, candidates) (head same)
candidates_complete own peer (q ∷ peers) (tail i) less = elim (Bool-cases (lt_int own q.priority)) [
  | inl e ↦ rw (e, candidates) (tail (candidates_complete own peer peers i less))
  | inr e ↦ rw (e, candidates) (candidates_complete own peer peers i less)
]

-- What `StartElection` may do.
pub data StartsElection (now : ℕ) (b : BullyElector) (n : Node)
    : BullyElector × List Outgoing × Course → Type 0 where
  busy : b.election_in_progress ≡ true → StartsElection now b n (b, [], skipped)
  unopposed :
      b.election_in_progress ≡ false
      → ((peer : NodeInfo) → In peer (get_peers n) → ¬ (n.priority <ℤ peer.priority))
      → StartsElection now b n
          (record b { election_in_progress = true; ok_chan = some false }, [], leads)
  opposed :
      (higher : List NodeInfo)
      → b.election_in_progress ≡ false
      → higher ≢ []
      → ((peer : NodeInfo)
          → In peer higher ↔ (In peer (get_peers n) × (n.priority <ℤ peer.priority)))
      → StartsElection now b n (
        record b { election_in_progress = true; ok_chan = some false },
        ask
            (record {
              kind = election;
              from = n.id;
              to = nil_id;
              payload = node_info_json (get_node_info now n);
            })
            higher,
        waits,
      )

-- An election that is in progress is not disturbed. Else the node becomes the leader at once exactly
-- if no peer has a higher priority, and otherwise asks exactly the peers that have one, and waits.
pub start_election-StartsElection :
    (now : ℕ) (b : BullyElector) (n : Node) → StartsElection now b n (start_election now b n)
unfolding start_election
start_election-StartsElection now b n = elim (Bool-cases b.election_in_progress) [
  | inl e ↦ rw (e, start_election) (busy refl)
  | inr e ↦ elim (List-cases (candidates n.priority (get_peers n))) [
    | inl none_higher ↦
        rw (e, none_higher, start_election)
          (unopposed refl (λ peer i less. In-nil (
            subst (In peer) none_higher
              (candidates_complete n.priority peer (get_peers n) i less))))
    | inr (q, qs, found) ↦
        rw (e, found, start_election)
          (opposed (q ∷ qs) refl (λ z. cc)
            (λ peer. (
              λ i. candidates-In n.priority peer (get_peers n) (subst (In peer) (sym found) i),
              λ r.
                  subst (In peer) found (candidates_complete n.priority peer (get_peers n) r.0 r.1),
            )))
  ]
]
