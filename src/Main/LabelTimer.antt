-- ===== src/Main/LabelTimer.antt =====
-- The labels of a Resv table that has lost messages, as timer_event.c leaves it.
use socket.Base.{Bool, ◌∙◌, true, false, if◌then◌else◌, ℕ, ◌≡◌, sym, false, Option, none, some}
use mathlib.Core.Option.{none-ne-some}
use socket.Label.{Bitmap}
use socket.Main.Labels.{HasLabels}
use socket.Message.{ResvMsg, path_order, resv_order}
use socket.Timer.Purge.{Without}
use socket.Tree.{Tree, search_node}
use socket.Tree.Search.{data_of}

still_there :
    {A : Type 0} (gone : Bool) (before after : Option A) (x : A)
    → after ≡ (if gone then none else before)
    → after ≡ some x
    → before ≡ some x
still_there true before after x e f = absurd (none-ne-some x (sym e ∙ f))
still_there false before after x e f = sym e ∙ f

-- A table that has lost messages.
pub Without-HasLabels :
    (out : ℕ → Bool) (m : Bitmap) (t t' : Tree ResvMsg)
    → Without out t t'
    → HasLabels m t
    → HasLabels m t'
Without-HasLabels out m t t' (v, same) labels = record {
  marked = λ k q found. labels.marked k q (
      still_there (out k) (data_of (search_node t k)) (data_of (search_node t' k)) q (same k)
        found);
  distinct = λ j k p q found found'.
      labels.distinct j k p q
        (still_there (out j) (data_of (search_node t j)) (data_of (search_node t' j)) p (same j)
          found)
        (still_there (out k) (data_of (search_node t k)) (data_of (search_node t' k)) q (same k)
          found');
}
