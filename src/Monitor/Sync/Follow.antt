-- ===== src/Monitor/Sync/Follow.antt =====
-- src/bin/monitor.rs: the blocks of a chain processed one by one, and the windows of `sync`.
use bitcoin_ipc.Prelude.{ℕ, zero, suc, ◌+◌, ◌≡◌, refl, ap, sym, ◌∙◌, List, [], ◌∷◌, arith}
use mathlib.Core.Path.{fun_ext}
use bitcoin_ipc.Result.{ok, err}
use bitcoin_ipc.Monitor.{Config, Monitor, Outcome, and_then}
use bitcoin_ipc.Monitor.Sync.{Block, process_block_data, advance, process_window}

-- The reference: the next `count` blocks of a chain, one at a time.
unfoldable pub follow : Config → (ℕ → Block) → ℕ → Monitor → Outcome
follow c chain zero mon = (mon, ok tt)
follow c chain (suc count) mon =
    and_then (advance c (mon.current_height + 1) (chain (mon.current_height + 1)) mon)
      (follow c chain count)

unfoldable pub blocks_from : (ℕ → Block) → ℕ → ℕ → List Block
blocks_from chain height zero = []
blocks_from chain height (suc count) = chain height ∷ blocks_from chain (height + 1) count

-- A sequence that succeeds succeeded in its parts.
pub and_then-elim {κ} :
    (first : Outcome) (rest : Monitor → Outcome) {mon : Monitor} {P : Type κ}
    → and_then first rest ≡ (mon, ok tt)
    → ((mid : Monitor) → first ≡ (mid, ok tt) → rest mid ≡ (mon, ok tt) → P)
    → P
and_then-elim (mid, ok done) rest h k = k mid refl h
and_then-elim (mid, err e) rest h k = absurd cc

pub advance-height :
    (c : Config) (height : ℕ) (block : Block) (mon mon' : Monitor)
    → advance c height block mon ≡ (mon', ok tt)
    → mon'.current_height ≡ height
unfolding advance
advance-height c height block mon mon' h =
    and_then-elim (process_block_data c height block mon) _ h
      λ mid _ h. let e = ap (λ (o : Outcome). o.0.current_height) h in sym e

pub follow-height :
    (c : Config) (chain : ℕ → Block) (count : ℕ) (mon mon' : Monitor)
    → follow c chain count mon ≡ (mon', ok tt)
    → mon'.current_height ≡ mon.current_height + count
unfolding follow
follow-height c chain zero mon mon' h =
    let e = ap (λ (o : Outcome). o.0.current_height) h in omega arith
follow-height c chain (suc count) mon mon' h =
    and_then-elim (advance c (mon.current_height + 1) (chain (mon.current_height + 1)) mon) _ h
      λ mid first h.
        omega (arith, advance-height c _ _ mon mid first, follow-height c chain count mid mon' h)

pub and_then_cong :
    (first : Outcome) (f g : Monitor → Outcome)
    → ((mid : Monitor) → first ≡ (mid, ok tt) → f mid ≡ g mid)
    → and_then first f ≡ and_then first g
and_then_cong (mid, ok done) f g same = same mid refl
and_then_cong (mid, err e) f g same = refl

and_then_assoc :
    (first : Outcome) (f g : Monitor → Outcome)
    → and_then (and_then first f) g ≡ and_then first (λ mon. and_then (f mon) g)
and_then_assoc (mon, ok done) f g = refl
and_then_assoc (mon, err e) f g = refl

pub follow-add :
    (c : Config) (chain : ℕ → Block) (n m : ℕ) (mon : Monitor)
    → follow c chain (n + m) mon ≡ and_then (follow c chain n mon) (follow c chain m)
unfolding follow
follow-add c chain zero m mon = let e : 0 + m ≡ m = omega arith in rw e refl
follow-add c chain (suc n) m mon =
    let e : suc n + m ≡ suc (n + m) = omega arith in
    rw e (
      ap (and_then (advance c (mon.current_height + 1) (chain (mon.current_height + 1)) mon))
        (fun_ext (λ mid. follow-add c chain n m mid))
      ∙ sym (
          and_then_assoc (advance c (mon.current_height + 1) (chain (mon.current_height + 1)) mon)
            (follow c chain n) (follow c chain m)))

-- A window is the blocks one by one.
pub process_window-follow :
    (c : Config) (chain : ℕ → Block) (count : ℕ) (mon : Monitor)
    → process_window c
        (mon.current_height + 1)
        (blocks_from chain (mon.current_height + 1) count)
        mon
      ≡ follow c chain count mon
unfolding process_window blocks_from follow
process_window-follow c chain zero mon = refl
process_window-follow c chain (suc count) mon =
    and_then_cong (advance c (mon.current_height + 1) (chain (mon.current_height + 1)) mon)
      (process_window c (mon.current_height + 1 + 1)
        (blocks_from chain (mon.current_height + 1 + 1) count))
      (follow c chain count)
      λ mid first.
        let e = advance-height c (mon.current_height + 1) _ mon mid first in
        ap (λ h. process_window c (h + 1) (blocks_from chain (h + 1) count) mid) (sym e)
        ∙ process_window-follow c chain count mid
