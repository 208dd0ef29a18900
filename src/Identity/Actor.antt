-- ===== src/Identity/Actor.antt =====
-- identity/actor.py: what kind of account a login names, and the login in lower case.
use Prim.Native.Char.{Char, code}
use claude_code_codex_review.Prelude.{
  String, Bool, ◌||◌, ◌&&◌, Option, none, some, if◌then◌else◌, not, nat_beq,
}
use claude_code_codex_review.Prelude.Text.{
  is_upper, is_lower, is_digit, is_blank, all_chars, ends_with, lower,
}

pub data ActorClass : Type 0 where
  user bot invalid missing : ActorClass

-- `raw_login`, which is for diagnosis, is left out.
pub record ResolvedActor : Type 0 where
  pub klass : ActorClass
  pub login : Option String

-- `[A-Za-z0-9-]`.
abbrev pub is_login_char : Char → Bool
is_login_char c = is_upper c || is_lower c || is_digit c || nat_beq (code c) 45

unfoldable pub is_login : String → Bool
is_login s = not (is_blank s) && all_chars is_login_char s

abbrev refused_as : ActorClass → ResolvedActor
refused_as k = record { klass = k; login = none }

unfoldable pub resolve_actor : Option String → ResolvedActor
resolve_actor none = refused_as ActorClass.missing
resolve_actor (some s) =
    if ends_with (lower s) "[bot]"
    then refused_as ActorClass.bot
    else if not (is_login s)
    then refused_as ActorClass.invalid
    else record { klass = ActorClass.user; login = some (lower s) }

-- The normalised login of a user, and nothing for anyone else.
unfoldable pub user_login : Option String → Option String
unfolding resolve_actor
user_login s = elim (resolve_actor s).klass [ ActorClass.user ↦ (resolve_actor s).login | _ ↦ none ]
