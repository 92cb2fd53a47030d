-- ===== src/Client/Requests.antt =====
-- The requests of backend/dfs/client/master_client.go: what they cost, where an answer comes from,
-- and the change to another master.
use distributed_file_system.Prelude.{
  ℕ, zero, suc, ◌+◌, ◌*◌, ◌≤◌, ◌<◌, ◌≡◌, ◌≢◌, ◌⊎◌, inl, inr, refl, ap, sym, ◌∙◌, subst, Bool, true,
  false, not, ◌||◌, List, [], ◌∷◌, Option, none, some, length, ◌==◌, nat_eq, bytes_eq, arith, In,
  head, tail, Option-cases, Bool-cases, Bytes, bytes_beq_iff, nat_beq_iff,
}
use distributed_file_system.Common.Types.{NodeInfo}
use distributed_file_system.Common.Messages.{Json, Message, MessageWithTime}
use distributed_file_system.Client.{
  NodeAddr, MasterClient, get_master_addr, set_master_addr, Exchange, no_connection, send_failed,
  no_response, answered, Network, timeless, ask_seed, discover_loop, discover_master, request_round,
  request_loop, send_request_with_retry, send_request,
}

seeds-set_master_addr :
    (ip : Bytes) (port : ℕ) (c : MasterClient)
    → (set_master_addr ip port c).seed_nodes ≡ c.seed_nodes
unfolding set_master_addr
seeds-set_master_addr ip port c =
    elim (Bool-cases (not (c.master_ip == ip) || not (c.master_port == port))) [
      | inl e ↦ rw e refl
      | inr e ↦ rw e refl
    ]

Exchange-cases :
    (x : Exchange)
    → ((r : MessageWithTime) × (x ≡ answered r))
      ⊎ ((x ≡ no_connection) ⊎ ((x ≡ send_failed) ⊎ (x ≡ no_response)))
Exchange-cases no_connection = inr (inl refl)
Exchange-cases send_failed = inr (inr (inl refl))
Exchange-cases no_response = inr (inr (inr refl))
Exchange-cases (answered r) = inl (r, refl)

suc-mul : (n k : ℕ) → suc n * k ≡ k + n * k
suc-mul n k = omega arith

cost_step :
    (n i s d s' r : ℕ) → d ≤ i + 1 + s → s' ≡ s → r ≤ d + n * (1 + s') → r ≤ i + suc n * (1 + s)
cost_step n i s d s' r a e b = rw (suc-mul n (1 + s)) (omega (arith, ap (λ t. n * (1 + t)) e))

same :
    (c : MasterClient) (ip : Bytes) (port : ℕ)
    → (not (c.master_ip == ip) || not (c.master_port == port)) ≡ false
    → get_master_addr c ≡ record { ip = ip; port = port }
unfolding get_master_addr
same c ip port h =
    let (i, p) : (c.master_ip ≡ ip) × (c.master_port ≡ port) =
      ground (arith, (bytes_beq_iff c.master_ip ip).0, (nat_beq_iff c.master_port port).0) in
    λ k. record { ip = i k; port = p k }

module _ (net : Network) (json : Json) where
  -- What the loop over the seeds comes to.
  data Discovers (i : ℕ) (seeds : List NodeAddr) (c : MasterClient)
      : ℕ × MasterClient × Bool → Type 0 where
    found :
        {j : ℕ} {seed : NodeAddr} {peer : NodeInfo}
        → i ≤ j
        → j < i + length seeds
        → In seed seeds
        → ask_seed net json j seed c ≡ some peer
        → Discovers i seeds c (j + 1, set_master_addr peer.ip peer.port c, true)
    lost :
        {n : ℕ}
        → n ≡ i + length seeds
        → ((seed : NodeAddr) → In seed seeds → (j : ℕ) × (ask_seed net json j seed c ≡ none))
        → Discovers i seeds c (n, c, false)

  lost-tail :
      {seed : NodeAddr} {seeds : List NodeAddr} (c : MasterClient) (j : ℕ)
      → ask_seed net json j seed c ≡ none
      → ((s : NodeAddr) → In s seeds → (j : ℕ) × (ask_seed net json j s c ≡ none))
      → (s : NodeAddr) → In s (seed ∷ seeds)
      → (j : ℕ) × (ask_seed net json j s c ≡ none)
  lost-tail c j e f s (head q) = (j, ap (λ t. ask_seed net json j t c) q ∙ e)
  lost-tail c j e f s (tail m) = f s m

  Discovers-tail :
      {i : ℕ} {seed : NodeAddr} {seeds : List NodeAddr} {c : MasterClient}
      {r : ℕ × MasterClient × Bool}
      → ask_seed net json i seed c ≡ none
      → Discovers (i + 1) seeds c r
      → Discovers i (seed ∷ seeds) c r
  Discovers-tail e (found a b m q) = found (omega arith) (omega arith) (tail m) q
  Discovers-tail {i = i} {c = c} e (lost n f) = lost (omega arith) (lost-tail c i e f)

  discover_loop-Discovers :
      (i : ℕ) (seeds : List NodeAddr) (c : MasterClient)
      → Discovers i seeds c (discover_loop net json i seeds c)
  unfolding discover_loop
  discover_loop-Discovers i [] c = lost (omega arith) (λ s m. absurd (elim m [ ]))
  discover_loop-Discovers i (seed ∷ seeds) c = elim (Option-cases (ask_seed net json i seed c)) [
    | inl e ↦ rw (e, discover_loop) (Discovers-tail e (discover_loop-Discovers (i + 1) seeds c))
    | inr (peer, e) ↦ rw (e, discover_loop) (found (omega arith) (omega arith) (head refl) e)
  ]

  Discovers-cost :
      {i : ℕ} {seeds : List NodeAddr} {c : MasterClient} {r : ℕ × MasterClient × Bool}
      → Discovers i seeds c r
      → (r.0 ≤ i + length seeds) × (r.1.seed_nodes ≡ c.seed_nodes) × (i ≤ r.0)
  Discovers-cost {c = c} (found {peer = p} a b m q) =
      (omega arith, seeds-set_master_addr p.ip p.port c, omega arith)
  Discovers-cost (lost n f) = (omega arith, refl, omega arith)

  module _ (msg : Message) where
    -- What one round comes to: the answer of the master, or the result of a discovery.
    data Round (i : ℕ) (c : MasterClient) : ℕ × MasterClient × Option Message → Type 0 where
      replied :
          {r : MessageWithTime}
          → net i (get_master_addr c) (timeless msg) ≡ answered r
          → Round i c (i + 1, c, some r.message)
      searched :
          {d : ℕ × MasterClient × Bool}
          → ((r : MessageWithTime) → net i (get_master_addr c) (timeless msg) ≢ answered r)
          → Discovers (i + 1) c.seed_nodes c d
          → Round i c (d.0, d.1, none)

    discovery :
        (i : ℕ) (c : MasterClient) → Discovers i c.seed_nodes c (discover_master net json i c)
    unfolding discover_master
    discovery i c = discover_loop-Discovers i c.seed_nodes c

    request_round-Round : (i : ℕ) (c : MasterClient) → Round i c (request_round net json msg i c)
    unfolding request_round
    request_round-Round i c = elim (Exchange-cases (net i (get_master_addr c) (timeless msg))) [
      | inl (r, e) ↦ rw (e, request_round) (replied e)
      | inr (inl e) ↦ rw (e, request_round) (searched (λ r q. absurd cc) (discovery (i + 1) c))
      | inr (inr (inl e)) ↦
          rw (e, request_round) (searched (λ r q. absurd cc) (discovery (i + 1) c))
      | inr (inr (inr e)) ↦
          rw (e, request_round) (searched (λ r q. absurd cc) (discovery (i + 1) c))
    ]

    -- What the loop of the attempts comes to, for `n` attempts that are left.
    data Attempts : ℕ → ℕ → MasterClient → ℕ × MasterClient × Option Message → Type 0 where
      exhausted : {i : ℕ} {c : MasterClient} → Attempts zero i c (i, c, none)
      replied_at :
          {n i : ℕ} {c : MasterClient} {r : MessageWithTime}
          → net i (get_master_addr c) (timeless msg) ≡ answered r
          → Attempts (suc n) i c (i + 1, c, some r.message)
      again :
          {n i : ℕ} {c : MasterClient} {d : ℕ × MasterClient × Bool}
          {r : ℕ × MasterClient × Option Message}
          → ((r : MessageWithTime) → net i (get_master_addr c) (timeless msg) ≢ answered r)
          → Discovers (i + 1) c.seed_nodes c d
          → Attempts n d.0 d.1 r
          → Attempts (suc n) i c r

    one_attempt :
        {n i : ℕ} {c : MasterClient} {x r : ℕ × MasterClient × Option Message}
        → Round i c x
        → (x.2 ≡ none → Attempts n x.0 x.1 r)
        → ((m : Message) → x.2 ≡ some m → r ≡ x)
        → Attempts (suc n) i c r
    one_attempt {n} {i} {c} (replied {r = r} e) more done =
        subst (Attempts (suc n) i c) (sym (done r.message refl)) (replied_at e)
    one_attempt (searched e d) more done = again e d (more refl)

    request_loop-Attempts :
        (n i : ℕ) (c : MasterClient) → Attempts n i c (request_loop net json msg n i c)
    unfolding request_loop
    request_loop-Attempts zero i c = exhausted
    request_loop-Attempts (suc n) i c = elim (Option-cases (request_round net json msg i c).2) [
      | inl e ↦
          one_attempt (request_round-Round i c)
            (λ _.
              rw (e, request_loop)
                (request_loop-Attempts n (request_round net json msg i c).0
                  (request_round net json msg i c).1))
            (λ m q. absurd cc)
      | inr (m, e) ↦
          one_attempt (request_round-Round i c) (λ q. absurd cc) (λ m' q. simp (request_loop, e))
    ]

    Attempts-cost :
        {n i : ℕ} {c : MasterClient} {r : ℕ × MasterClient × Option Message}
        → Attempts n i c r
        → (r.0 ≤ i + n * (1 + length c.seed_nodes)) × (i ≤ r.0)
    Attempts-cost exhausted = (omega arith, omega arith)
    Attempts-cost (replied_at {n} {i} {c} e) =
        (omega (arith, suc-mul n (1 + length c.seed_nodes)), omega arith)
    Attempts-cost (again {n} {i} {c} {d} {r} f s a) =
        let (most, same, least) = Discovers-cost s in
        let (rest, after) = Attempts-cost a in
        (cost_step n i _ d.0 _ r.0 most (ap length same) rest, omega arith)

    Attempts-answer :
        {n i : ℕ} {c : MasterClient} {r : ℕ × MasterClient × Option Message} (m : Message)
        → Attempts n i c r
        → r.2 ≡ some m
        → (j : ℕ) × (a : MessageWithTime) × (r.0 ≡ j + 1)
          × (net j (get_master_addr r.1) (timeless msg) ≡ answered a)
          × (a.message ≡ m)
    Attempts-answer m exhausted q = absurd cc
    Attempts-answer m (replied_at {n} {i} {c} {r} e) q = (i, r, refl, e, cc)
    Attempts-answer m (again f d a) q = Attempts-answer m a q

    send_request-Attempts :
        (i : ℕ) (c : MasterClient) → Attempts 3 i c (send_request net json msg i c)
    unfolding send_request send_request_with_retry
    send_request-Attempts i c = request_loop-Attempts 3 i c

    -- A request makes at most three times one connection more than there are seeds. What it
    -- returns is what was answered on its last connection, at the address that the client then
    -- has for the master.
    pub send_request_answer :
        (i : ℕ) (c : MasterClient)
        → let r = send_request net json msg i c in
          (r.0 ≤ i + 3 * (1 + length c.seed_nodes))
          × ((m : Message)
              → r.2 ≡ some m
              → (j : ℕ) × (a : MessageWithTime) × (r.0 ≡ j + 1)
                × (net j (get_master_addr r.1) (timeless msg) ≡ answered a)
                × (a.message ≡ m))
    send_request_answer i c = (
      (Attempts-cost (send_request-Attempts i c)).0,
      λ m. Attempts-answer m (send_request-Attempts i c),
    )

    -- Whoever is asked at an address answers, on every connection.
    abbrev pub Answers : NodeAddr → Type 0
    Answers addr = (j : ℕ) → (r : MessageWithTime) × (net j addr (timeless msg) ≡ answered r)

    get-set_master_addr :
        (ip : Bytes) (port : ℕ) (c : MasterClient)
        → get_master_addr (set_master_addr ip port c) ≡ record { ip = ip; port = port }
    unfolding get_master_addr set_master_addr
    get-set_master_addr ip port c =
        elim (Bool-cases (not (c.master_ip == ip) || not (c.master_port == port))) [
          | inl e ↦ rw e refl
          | inr e ↦ rw e (same c ip port e)
        ]

    Attempts-first :
        {n i : ℕ} {c : MasterClient} {r : ℕ × MasterClient × Option Message}
        → Answers (get_master_addr c)
        → Attempts (suc n) i c r
        → (m : Message) × (r.2 ≡ some m)
    Attempts-first ans (replied_at {r = a} e) = (a.message, refl)
    Attempts-first ans (again {i = i} f s a) = absurd (f (ans i).0 (ans i).1)

    module _ (c : MasterClient) (seed : NodeAddr) (known : In seed c.seed_nodes)
        (names : (j : ℕ) → ask_seed net json j seed c ≢ none)
        (reachable : (j : ℕ) (s : NodeAddr) (peer : NodeInfo)
          → ask_seed net json j s c ≡ some peer
          → Answers (record { ip = peer.ip; port = peer.port })) where
      discovered-Answers :
          {i : ℕ} {d : ℕ × MasterClient × Bool}
          → Discovers i c.seed_nodes c d
          → Answers (get_master_addr d.1)
      discovered-Answers (found {j} {seed = s} {peer} a b m q) =
          subst Answers (sym (get-set_master_addr peer.ip peer.port c)) (reachable j s peer q)
      discovered-Answers (lost n f) = absurd (names (f seed known).0 (f seed known).1)

      Attempts-failover :
          {n i : ℕ} {r : ℕ × MasterClient × Option Message}
          → Attempts (suc (suc n)) i c r
          → (m : Message) × (r.2 ≡ some m)
      Attempts-failover (replied_at {r = a} e) = (a.message, refl)
      Attempts-failover (again f d a) = Attempts-first (discovered-Answers d) a

      -- The request survives the loss of the master: if one of the seeds always names a master
      -- that is online, and every master that a seed names answers, then the request gets an
      -- answer, whether the master that the client knew answers or not.
      pub send_request_failover :
          (i : ℕ) → (m : Message) × ((send_request net json msg i c).2 ≡ some m)
      send_request_failover i = Attempts-failover (send_request-Attempts i c)
