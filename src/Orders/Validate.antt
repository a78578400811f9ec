-- ===== src/Orders/Validate.antt =====
-- What `OrderValidator.validate` accepts.
use coffee_buddy.Prelude.{◌≤◌, ◌<◌, ◌≡◌, ◌↔◌, false, arith, length, []}
use coffee_buddy.Effects.{ok, raised}
use coffee_buddy.Text.{Text, is_empty, is_space, strip}
use coffee_buddy.Text.Strip.{
  StartsOutside, EndsOutside, strip_by-StartsOutside, strip_by-EndsOutside,
}
use coffee_buddy.Orders.Models.{OrderValidator, validate, order_validation, empty, too_long}

-- A text that the validator may return.
pub record IsOrderText (v : OrderValidator) (n : Text) : Type 0 where
  pub not_empty : is_empty n ≡ false
  pub fits : length n ≤ v.max_length
  pub starts : StartsOutside is_space n
  pub ends : EndsOutside is_space n

module _ (v : OrderValidator) (t : Text) where
  -- The validator returns the text without the white space around it, exactly if what is left is
  -- not empty and fits; what it returns neither starts nor ends with white space.
  pub validate-ok : (n : Text) → (validate v t ≡ ok n) ↔ (n ≡ strip t) × IsOrderText v n
  unfolding validate strip
  validate-ok n = ground (arith, strip_by-StartsOutside is_space t, strip_by-EndsOutside is_space t)

  -- The validator says that a text is empty exactly if nothing is left without the white space
  -- around it, and that it is too long exactly if what is left exceeds the limit.
  pub validate-raised :
      ((validate v t ≡ raised (order_validation empty)) ↔ (strip t ≡ []))
      × ((validate v t ≡ raised (order_validation (too_long v.max_length)))
          ↔ (v.max_length < length (strip t)))
  unfolding validate
  validate-raised = (ground arith, ground arith)
