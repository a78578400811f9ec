-- ===== src/Text/Order.antt =====
-- `<` of texts is a strict linear order.
use coffee_buddy.Prelude.{◌≡◌, refl, true, false, ◌||◌, [], ◌∷◌, arith}
use coffee_buddy.Text.{Text, text_lt}

pub text_lt_irrefl : (a : Text) → text_lt a a ≡ false
unfolding text_lt
text_lt_irrefl [] = refl
text_lt_irrefl (a ∷ as') = ground (arith, text_lt_irrefl as')

pub text_lt_trans : (a b c : Text) → text_lt a b ≡ true → text_lt b c ≡ true → text_lt a c ≡ true
unfolding text_lt
text_lt_trans [] b [] h k = ground arith
text_lt_trans [] b (c ∷ cs) h k = refl
text_lt_trans (a ∷ as') [] c h k = cc
text_lt_trans (a ∷ as') (b ∷ bs) [] h k = k
text_lt_trans (a ∷ as') (b ∷ bs) (c ∷ cs) h k = ground (arith, text_lt_trans as' bs cs)

-- Of two texts that stand in the order, every third stands on one side.
pub text_lt_split : (a b c : Text) → text_lt a c ≡ true → (text_lt a b || text_lt b c) ≡ true
unfolding text_lt
text_lt_split [] b [] h = cc
text_lt_split (a ∷ as') b [] h = cc
text_lt_split [] [] (c ∷ cs) h = refl
text_lt_split [] (b ∷ bs) (c ∷ cs) h = refl
text_lt_split (a ∷ as') [] (c ∷ cs) h = refl
text_lt_split (a ∷ as') (b ∷ bs) (c ∷ cs) h = ground (arith, text_lt_split as' bs cs)

pub text_lt_total : (a b : Text) → text_lt a b ≡ false → text_lt b a ≡ false → a ≡ b
unfolding text_lt
text_lt_total [] [] h k = refl
text_lt_total [] (b ∷ bs) h k = cc
text_lt_total (a ∷ as') [] h k = cc
text_lt_total (a ∷ as') (b ∷ bs) h k = ground (arith, text_lt_total as' bs)
