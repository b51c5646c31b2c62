-- ===== src/View/Base.antt =====
-- CCoinsView of coins.cpp, the class itself: a view that shows no coins and keeps none.
use darcoin.Common.{refl, inr, false, none}
use darcoin.View.{CoinsView, IsCoinsView}

-- The class has no fields.
pub record NoView : Type 0 where

abbrev pub base_view : CoinsView NoView
base_view = record {
  get_coins = λ s k. (none, s);
  set_coins = λ s k c. (false, s);
  have_coins = λ s k. (false, s);
  get_best_block = λ s. (0, s);
  set_best_block = λ s h. (false, s);
  batch_write = λ s m h. (false, s);
}

unfoldable pub base_view-IsCoinsView : IsCoinsView base_view
base_view-IsCoinsView = record {
  look = λ s k. none;
  best = λ s. 0;
  get_result = λ s k. refl;
  get_look = λ s k j. refl;
  get_best = λ s k. refl;
  have_result = λ s k. refl;
  have_look = λ s k j. refl;
  have_best = λ s k. refl;
  set_look = λ s k j c. refl;
  set_best = λ s k c. refl;
  best_result = λ s. refl;
  best_look = λ s j. refl;
  best_best = λ s. refl;
  move_look = λ s h j. refl;
  move_best = λ s h. inr refl;
  write_look = λ s m h j. refl;
  write_best = λ s m h. inr refl;
}
