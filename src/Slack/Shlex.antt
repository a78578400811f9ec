-- ===== src/Slack/Shlex.antt =====
-- `shlex.split`, which divides the text of a command as a POSIX shell does.
use coffee_buddy.Prelude.{
  ℕ, Bool, ◌&&◌, ◌||◌, Option, none, some, List, [], ◌∷◌, ◌++◌, ◌==◌, if◌then◌else◌,
}
use coffee_buddy.Effects.{Result, ok, raised}
use coffee_buddy.Text.{Text}

-- What its `ValueError` says.
pub data ShlexError : Type 0 where
  no_closing_quotation no_escaped_character : ShlexError

-- Between two words, in a word, in quotes of a kind, or after a backslash in one of the last two.
pub data State : Type 0 where
  between word : State
  quoted escaped_in : ℕ → State
  escaped : State

abbrev pub is_blank : ℕ → Bool
is_blank c = c == b' ' || c == 9 || c == 13 || c == 10

abbrev pub is_quote : ℕ → Bool
is_quote c = c == b'\'' || c == b'"'

-- What a character does: the state and the word after it, and the word that it ends.
pub record Move : Type 0 where
  pub state : State
  pub token : Text
  pub ended : Option Text

abbrev pub go : State → Text → Move
go state token = record { state = state; token = token; ended = none }

-- A character outside quotes, which goes on with the word where it has no other meaning.
abbrev pub in_word : Text → ℕ → Move
in_word token c =
    if is_quote c
    then go (quoted c) token
    else if c == b'\\'
    then go escaped token
    else go word (token ++ c ∷ [])

abbrev pub move : State → Text → ℕ → Move
move between token c = if is_blank c then go between token else in_word token c
move word token c =
    if is_blank c
    then record { state = between; token = []; ended = some token }
    else in_word token c
move (quoted q) token c =
    if c == q
    then go word token
    else if q == b'"' && c == b'\\'
    then go (escaped_in q) token
    else go (quoted q) (token ++ c ∷ [])
move (escaped_in q) token c =
    if c == b'\\' || c == q
    then go (quoted q) (token ++ c ∷ [])
    else go (quoted q) (token ++ (b'\\' ∷ c ∷ []))
move escaped token c = go word (token ++ c ∷ [])

abbrev pub with_token : Option Text → Result ShlexError (List Text) → Result ShlexError (List Text)
with_token none rest = rest
with_token (some t) (ok ts) = ok (t ∷ ts)
with_token (some t) (raised e) = raised e

-- The end of the text
abbrev pub at_end : State → Text → Result ShlexError (List Text)
at_end between token = ok []
at_end word token = ok (token ∷ [])
at_end (quoted q) token = raised no_closing_quotation
at_end (escaped_in q) token = raised no_escaped_character
at_end escaped token = raised no_escaped_character

unfoldable pub split_from : State → Text → Text → Result ShlexError (List Text)
split_from state token [] = at_end state token
split_from state token (c ∷ cs) =
    let m = move state token c in with_token m.ended (split_from m.state m.token cs)

unfoldable pub split : Text → Result ShlexError (List Text)
unfolding split_from
split t = split_from between [] t
