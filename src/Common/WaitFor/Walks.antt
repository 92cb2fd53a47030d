-- ===== src/Common/WaitFor/Walks.antt =====
-- Walks of a wait-for graph, and what makes a graph free of cycles.
use mathlib.Core.WellFounded.{Acc}
use distributed_file_system.Prelude.{refl, sym, List, [], ◌∷◌, ◌++◌, In, head, tail, subst}
use distributed_file_system.Common.Types.{NodeId}
use distributed_file_system.Common.WaitFor.{Graph, successors}

abbrev pub Edge : Graph → NodeId → NodeId → Type 0
Edge g v w = In w (successors g v)

-- A walk of one edge or more.
pub data Reaches (g : Graph) (x : NodeId) : NodeId → Type 0 where
  edge : {y : NodeId} → Edge g x y → Reaches g x y
  extend : {y z : NodeId} → Reaches g x y → Edge g y z → Reaches g x z

-- All walks out of the node are finite.
abbrev pub Ends : Graph → NodeId → Type 0
Ends g = Acc (λ w v. Edge g v w)

prepend : {g : Graph} {x y z : NodeId} → Edge g x y → Reaches g y z → Reaches g x z
prepend e (edge f) = extend (edge e) f
prepend e (extend r f) = extend (prepend e r) f

-- A closed walk starts with an edge, after which the rotated walk is closed too.
join : {g : Graph} {x y z : NodeId} → Reaches g x y → Reaches g y z → Reaches g x z
join r (edge e) = extend r e
join r (extend s e) = extend (join r s) e

first :
    {g : Graph} {x z : NodeId}
    → Reaches g x z
    → Reaches g z x
    → (y : NodeId) × Edge g x y × Reaches g y y
first {z} (edge e) back = (z, e, extend' e back)
  where
    extend' : {g : Graph} {x z : NodeId} → Edge g x z → Reaches g z x → Reaches g z z
    extend' e back = extend back e
first (extend r e) back = first r (prepend e back)

pub not-Reaches_of_Ends : {g : Graph} {x : NodeId} → Ends g x → ¬ Reaches g x x
not-Reaches_of_Ends (Acc.intro _ smaller) r =
    let (y, e, s) = first r r in not-Reaches_of_Ends (smaller y e) s

-- The nodes of a path follow the edges.
abbrev pub IsWalk : Graph → List NodeId → Type 0
IsWalk g [] = Unit
IsWalk g (x ∷ []) = Unit
IsWalk g (x ∷ y ∷ p) = Edge g x y × IsWalk g (y ∷ p)

pub IsWalk-concat :
    (g : Graph) (p : List NodeId) (n e : NodeId)
    → IsWalk g (p ++ n ∷ [])
    → Edge g n e
    → IsWalk g ((p ++ n ∷ []) ++ e ∷ [])
IsWalk-concat g [] n e w h = (h, tt)
IsWalk-concat g (x ∷ []) n e w h = (w.0, (h, tt))
IsWalk-concat g (x ∷ y ∷ p) n e w h = (w.0, IsWalk-concat g (y ∷ p) n e w.1 h)

pub Reaches_of_IsWalk :
    (g : Graph) (q : List NodeId) (x y : NodeId) → In x q → IsWalk g (q ++ y ∷ []) → Reaches g x y
Reaches_of_IsWalk g [] x y i w = elim i [ ]
Reaches_of_IsWalk g (a ∷ []) x y (head e) w = edge (subst (λ z. Edge g z y) (sym e) w.0)
Reaches_of_IsWalk g (a ∷ []) x y (tail i) w = elim i [ ]
Reaches_of_IsWalk g (a ∷ b ∷ q) x y (head e) w =
    prepend (subst (λ z. Edge g z b) (sym e) w.0) (Reaches_of_IsWalk g (b ∷ q) b y (head refl) w.1)
Reaches_of_IsWalk g (a ∷ b ∷ q) x y (tail i) w = Reaches_of_IsWalk g (b ∷ q) x y i w.1
