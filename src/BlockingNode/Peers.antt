-- ===== src/BlockingNode/Peers.antt =====
-- The slots of the peers in blocking_node.c.
use cse511_lab.Prelude.{
  ℕ, suc, ◌+◌, List, [], ◌∷◌, Option, none, some, true, false, ◌≡◌, refl, sym, subst, arith,
  Bool-cases, inl, inr, get_elem?, take, All,
}
use cse511_lab.DataTypes.{Peer}
use cse511_lab.BlockingNode.{Node, next_free, next_peer_index}

-- the peers with a connection
abbrev pub AllValid : List Peer → Type 0
AllValid = All (λ p. p.valid ≡ true)

-- What an index says of the slots: the slot is free, and those before it are not; or none is free.
abbrev pub FirstFree : List Peer → Option ℕ → Type 0
FirstFree ps none = AllValid ps
FirstFree ps (some i) =
    (p : Peer) × (get_elem? ps i ≡ some p) × (p.valid ≡ false) × AllValid (take i ps)

-- `FirstFree` for an index that counts from `n` on
abbrev FirstFreeFrom : List Peer → ℕ → Option ℕ → Type 0
FirstFreeFrom ps n none = AllValid ps
FirstFreeFrom ps n (some k) = (i : ℕ) × (k ≡ n + i) × FirstFree ps (some i)

FirstFreeFrom-cons :
    (p : Peer) (ps : List Peer) (n : ℕ) (o : Option ℕ)
    → p.valid ≡ true
    → FirstFreeFrom ps (n + 1) o
    → FirstFreeFrom (p ∷ ps) n o
FirstFreeFrom-cons p ps n none v h = (v, h)
FirstFreeFrom-cons p ps n (some k) v (i, e, (q, found, free, before)) =
    (suc i, omega arith, (q, found, free, (v, before)))

next_free-valid :
    (p : Peer) (ps : List Peer) (n : ℕ)
    → p.valid ≡ true
    → next_free (p ∷ ps) n ≡ next_free ps (n + 1)
unfolding next_free
next_free-valid p ps n v = rw (v, next_free)

next_free-invalid :
    (p : Peer) (ps : List Peer) (n : ℕ) → p.valid ≡ false → next_free (p ∷ ps) n ≡ some n
unfolding next_free
next_free-invalid p ps n v = rw (v, next_free)

next_free-FirstFreeFrom : (ps : List Peer) (n : ℕ) → FirstFreeFrom ps n (next_free ps n)
next_free-FirstFreeFrom [] n = unfold next_free in tt
next_free-FirstFreeFrom (p ∷ ps) n = elim (Bool-cases p.valid) [
  | inl v ↦
      subst (FirstFreeFrom (p ∷ ps) n) (sym (next_free-valid p ps n v))
        (FirstFreeFrom-cons p ps n (next_free ps (n + 1)) v (next_free-FirstFreeFrom ps (n + 1)))
  | inr v ↦
      subst (FirstFreeFrom (p ∷ ps) n) (sym (next_free-invalid p ps n v))
        (0, omega arith, (p, refl, v, tt))
]

FirstFree-zero : (ps : List Peer) (o : Option ℕ) → FirstFreeFrom ps 0 o → FirstFree ps o
FirstFree-zero ps none h = h
FirstFree-zero ps (some k) (i, e, h) =
    let same : i ≡ k = omega arith in subst (λ n. FirstFree ps (some n)) same h

-- next_peer_index returns the index of a slot without a connection such that all slots before it
-- have one, or -1 where all slots have one.
pub next_peer_index-FirstFree : (node : Node) → FirstFree node.peers (next_peer_index node)
unfolding next_peer_index
next_peer_index-FirstFree node = FirstFree-zero node.peers _ (next_free-FirstFreeFrom node.peers 0)
