-- ===== src/Window/Pieces.antt =====
-- `AverageSampleWindow::AddSample` by several threads: each of its accesses is to an atomic of its own.
use mathlib.Core.Logic.{∥∥₁_elim}
use mathlib.Core.List.{Perm, Permᴰ}
use limen.Base.{
  ◌≡◌, refl, ap, ◌∙◌, Bool, true, false, if◌then◌else◌, List, [], ◌∷◌, ◌++◌, ℤ, pos, add32, add64,
  add64_comm,
}
use limen.Window.Defs.{Entry, store_min, store_max, after_entries}
use limen.Window.Average.{AverageWindow, add_sample, average_window}
use limen.Window.AverageLaws.{store_min_comm, store_max_comm}

-- One access; a loop of exchanges is the exchange that ends it.
pub data Piece : Type 0 where
  counts marks : Piece
  sums lowers raises : ℤ → Piece

unfoldable pub apply : Piece → AverageWindow → AverageWindow
apply counts w = record w { sample_count = add32 w.sample_count (pos 1) }
apply marks w = record w { did_drop = true }
apply (sums rtt_ns) w = record w { sum_rtt_ns = add64 w.sum_rtt_ns rtt_ns }
apply (lowers rtt_ns) w = record w { min_rtt_ns = store_min w.min_rtt_ns rtt_ns }
apply (raises inflight) w = record w { max_inflight = store_max w.max_inflight inflight }

-- The accesses of one call, the last one first; the flag is stored for a drop only.
unfoldable pub pieces_of : Entry → List Piece
pieces_of e =
    let others = raises e.inflight ∷ lowers e.rtt_ns ∷ sums e.rtt_ns ∷ counts ∷ [] in
    if e.did_drop then marks ∷ others else others

abbrev pub all_pieces : List Entry → List Piece
all_pieces [] = []
all_pieces (e ∷ past) = pieces_of e ++ all_pieces past

-- A window after accesses, newest first.
unfoldable pub after_pieces : AverageWindow → List Piece → AverageWindow
after_pieces w [] = w
after_pieces w (p ∷ past) = apply p (after_pieces w past)

apply_comm : (p q : Piece) (w : AverageWindow) → apply p (apply q w) ≡ apply q (apply p w)
unfolding apply
apply_comm counts counts w = refl
apply_comm counts _ w = refl
apply_comm marks marks w = refl
apply_comm marks _ w = refl
apply_comm (sums a) (sums b) w = ap (λ z. record w { sum_rtt_ns = z }) (add64_comm w.sum_rtt_ns b a)
apply_comm (sums a) _ w = refl
apply_comm (lowers a) (lowers b) w =
    ap (λ z. record w { min_rtt_ns = z }) (store_min_comm w.min_rtt_ns b a)
apply_comm (lowers a) _ w = refl
apply_comm (raises a) (raises b) w =
    ap (λ z. record w { max_inflight = z }) (store_max_comm w.max_inflight b a)
apply_comm (raises a) _ w = refl

after_pieces-Permᴰ :
    (w : AverageWindow) {ps qs : List Piece} → Permᴰ ps qs → after_pieces w ps ≡ after_pieces w qs
unfolding after_pieces
after_pieces-Permᴰ w Permᴰ.nil = refl
after_pieces-Permᴰ w (Permᴰ.cons e d) = rw (e, after_pieces-Permᴰ w d) refl
after_pieces-Permᴰ w (Permᴰ.swap {a} {b} {l = l} e f) =
    rw (e, f) (apply_comm _ _ (after_pieces w l))
after_pieces-Permᴰ w (Permᴰ.trans d e) = after_pieces-Permᴰ w d ∙ after_pieces-Permᴰ w e

-- The accesses of one call, after others, are the call.
after_pieces-pieces_of :
    (w : AverageWindow) (e : Entry) (past : List Piece) (b : Bool)
    → let e' : Entry = record e { did_drop = b } in
      after_pieces w (pieces_of e' ++ past) ≡ add_sample (after_pieces w past) e'
unfolding after_pieces pieces_of apply add_sample
after_pieces-pieces_of w e past true = refl
after_pieces-pieces_of w e past false = refl

after_pieces-all_pieces :
    (w : AverageWindow) (entries : List Entry)
    → after_pieces w (all_pieces entries) ≡ after_entries average_window w entries
unfolding after_pieces after_entries
after_pieces-all_pieces w [] = refl
after_pieces-all_pieces w (e ∷ past) =
    after_pieces-pieces_of w e (all_pieces past) e.did_drop
    ∙ ap (λ v. add_sample v e) (after_pieces-all_pieces w past)

AverageWindow_set : (v w : AverageWindow) → IsProp (v ≡ w)
AverageWindow_set = hlevel

-- Whatever order the accesses of concurrent calls of `AddSample` run in, one after another or in turns,
-- the window that they leave is the one that the calls leave when they run one at a time: no entry is
-- lost and none is counted twice, wrap-around included.
pub after_pieces-Perm :
    (w : AverageWindow) (entries : List Entry) (pieces : List Piece)
    → Perm pieces (all_pieces entries)
    → after_pieces w pieces ≡ after_entries average_window w entries
after_pieces-Perm w entries pieces h =
    ∥∥₁_elim h (AverageWindow_set _ _) (λ d. after_pieces-Permᴰ w d)
    ∙ after_pieces-all_pieces w entries
