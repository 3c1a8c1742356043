-- ===== src/Cluster/Network/Passes.antt =====
-- The loop of `_advance_network` of sim/runtime/cluster.py, whose list grows while it runs, ends,
-- and does what two plain passes do.
use syncons.Base.{
  ℕ, zero, suc, ◌+◌, ◌≤◌, ◌≡◌, ◌≢◌, ◌∙◌, refl, true, Option, none, some, List, [], ◌∷◌, ◌++◌, arith,
  length, length-append, all, all-append, append-nil, append_assoc, lookup_or, erase, Option-cases,
  inl, inr, ap, sym,
}
use syncons.Protocol.{NetworkFaultModel}
use syncons.Control.{◌>>=◌}
use syncons.Cluster.{InFlight}
use syncons.Cluster.Network.{Network, deliver_applied, deliver, drain, turns, advance_network}
use syncons.Cluster.Network.Routes.{is_applied, deliver_fresh-now, deliver_fresh-AllApplied}

-- The first pass: each delivery once; what the fault model delivers in this very round is put
-- aside.
unfoldable pub sweep :
    NetworkFaultModel
    → ℕ
    → List InFlight
    → Network
    → List InFlight
    → Option (List InFlight × Network)
sweep model round_id [] network late = some (late, network)
sweep model round_id (item ∷ deliveries) network late =
    deliver model round_id item network >>= (λ p. sweep model round_id deliveries p.1 (late ++ p.0))

-- The second pass: what was put aside is received.
unfoldable pub receive_all : List InFlight → Network → Option Network
receive_all [] network = some network
receive_all (item ∷ late) network = deliver_applied item network >>= (λ p. receive_all late p.1)

unfoldable pub two_passes : NetworkFaultModel → ℕ → List InFlight → Network → Option Network
two_passes model round_id deliveries network =
    sweep model round_id deliveries network [] >>= (λ p. receive_all p.0 p.1)

turns-append :
    (model : NetworkFaultModel) (r : ℕ) (xs ys : List InFlight)
    → turns model r (xs ++ ys) ≡ turns model r xs + turns model r ys
unfolding turns
turns-append model r [] ys = omega arith
turns-append model r (x ∷ xs) ys = ground (arith, turns-append model r xs ys)

turns-applied :
    (model : NetworkFaultModel) (r : ℕ) (xs : List InFlight)
    → all is_applied xs ≡ true
    → turns model r xs ≡ length xs
unfolding turns
turns-applied model r [] h = refl
turns-applied model r (x ∷ xs) h = ground (arith, turns-applied model r xs)

deliver_applied-added :
    (item : InFlight) (network after : Network) (added : List InFlight)
    → deliver_applied item network ≡ some (added, after)
    → added ≡ []
unfolding deliver_applied
deliver_applied-added item network after added e = ground arith

module _ (model : NetworkFaultModel) (r : ℕ) where
  applied_lem :
      (item : InFlight) (network : Network)
      → item.fault_applied ≡ true
      → deliver model r item network ≡ deliver_applied item network
  unfolding deliver
  applied_lem item network h = ground arith

  -- Whatever a turn puts behind the list has been through the fault model, and has been counted.
  added_lem :
      (item : InFlight) (xs : List InFlight) (network after : Network) (added : List InFlight)
      → deliver model r item network ≡ some (added, after)
      → (all is_applied added ≡ true)
        × (turns model r (item ∷ xs) ≡ suc (length added + turns model r xs))
  unfolding deliver turns
  added_lem item xs network after added e = ground (
    arith,
    deliver_applied-added item network after added,
    deliver_fresh-now model r item network,
    deliver_fresh-AllApplied model r item network,
  )

  drain_ends : (fuel : ℕ) (network : Network) → drain fuel model r [] network ≡ some (some network)
  unfolding drain
  drain_ends zero network = refl
  drain_ends (suc fuel) network = refl

  drain_raises :
      (fuel : ℕ) (item : InFlight) (xs : List InFlight) (network : Network)
      → deliver model r item network ≡ none
      → drain (suc fuel) model r (item ∷ xs) network ≡ some none
  unfolding drain
  drain_raises fuel item xs network e = rw (e, drain) refl

  drain_turns :
      (fuel : ℕ) (item : InFlight) (xs added : List InFlight) (network after : Network)
      → deliver model r item network ≡ some (added, after)
      → drain (suc fuel) model r (item ∷ xs) network ≡ drain fuel model r (xs ++ added) after
  unfolding drain
  drain_turns fuel item xs added network after e = rw (e, drain) refl

  turns_pos : (item : InFlight) (xs : List InFlight) → turns model r (item ∷ xs) ≢ 0
  unfolding turns
  turns_pos item xs = ground arith

  -- Once all of the list has been through the fault model, the loop only receives.
  drain-receive_all :
      (fuel : ℕ) (late : List InFlight) (network : Network)
      → all is_applied late ≡ true
      → length late ≤ fuel
      → drain fuel model r late network ≡ some (receive_all late network)
  unfolding receive_all
  drain-receive_all zero [] network h k = drain_ends 0 network
  drain-receive_all (suc fuel) [] network h k = drain_ends (suc fuel) network
  drain-receive_all zero (item ∷ late) network h k = absurd (omega arith)
  drain-receive_all (suc fuel) (item ∷ late) network h k =
      let applied = applied_lem item network (ground arith) in
      elim (Option-cases (deliver_applied item network)) [
        | inl e ↦ rw (e, drain_raises fuel item late network (applied ∙ e)) refl
        | inr ((added, after), e) ↦
            drain_turns fuel item late added network after (applied ∙ e)
            ∙ rw (e, deliver_applied-added item network after added e, append-nil late)
                (drain-receive_all fuel late after (ground arith) (omega arith))
      ]

  drain-two_passes :
      (fuel : ℕ) (xs late : List InFlight) (network : Network)
      → all is_applied late ≡ true
      → turns model r xs + length late ≤ fuel
      → drain fuel model r (xs ++ late) network
        ≡ some (sweep model r xs network late >>= (λ p. receive_all p.0 p.1))
  unfolding sweep
  drain-two_passes fuel [] late network h k =
      drain-receive_all fuel late network h (omega (arith, turns-applied model r []))
  drain-two_passes zero (x ∷ xs) late network h k = absurd (omega (arith, turns_pos x xs))
  drain-two_passes (suc fuel) (x ∷ xs) late network h k =
      elim (Option-cases (deliver model r x network)) [
        | inl e ↦ rw (e, drain_raises fuel x (xs ++ late) network e) refl
        | inr ((added, after), e) ↦
            let (applied, counted) = added_lem x xs network after added e in
            drain_turns fuel x (xs ++ late) added network after e
            ∙ rw (e, append_assoc xs late added)
                (drain-two_passes fuel xs (late ++ added) after
                  (ground (arith, all-append is_applied late added))
                  (omega (arith, counted, length-append late added)))
      ]

  -- With fuel for every turn the loop over the list that it extends ends, and has done what the two
  -- passes do: each delivery once, then what the model delivered in this very round.
  pub advance_network-two_passes :
      (network : Network)
      → advance_network model r network
        ≡ two_passes model r
            (lookup_or r [] network.scheduled)
            (record network { scheduled = erase r network.scheduled })
  unfolding advance_network two_passes
  advance_network-two_passes network =
      let deliveries = lookup_or r [] network.scheduled in
      let popped = record network { scheduled = erase r network.scheduled } in
      rw (drain_whole deliveries popped, advance_network) refl
    where
      drain_whole :
          (xs : List InFlight) (network : Network)
          → drain (turns model r xs) model r xs network ≡ some (two_passes model r xs network)
      drain_whole xs network =
          ap (λ ys. drain (turns model r xs) model r ys network) (sym (append-nil xs))
          ∙ drain-two_passes (turns model r xs) xs [] network refl (omega arith)
