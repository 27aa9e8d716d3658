-- ===== src/Window/ShellTests.antt =====
-- src/gs-window-x11.c: the rules on the shell's words hold for a small reader of command lines.
--
-- It reads blanks, single quotes and backslashes, and its quoting puts a backslash before each
-- character.
use Prim.Native.Char.{Char, code}
use budgie_screensaver.Common.{
  ◌≡◌, refl, true, Option, none, some, String, List, [], ◌∷◌, ◌++◌, ap, ◌∙◌, sym, ◌==◌,
  if◌then◌else◌, append, all_codes, arith,
}
use budgie_screensaver.Window.Command.{Shell}
use budgie_screensaver.Window.Words.{is_plain, is_unquoted, IsShell}

data Mode : Type 0 where
  bare single escaped : Mode

record Reader : Type 0 where
  mode : Mode
  word : String
  words : List String

abbrev reader : Mode → String → List String → Reader
reader m w ws = record { mode = m; word = w; words = ws }

abbrev snoc : String → Char → String
snoc s c = append s (String.◌∷◌ c String.[])

step : Mode → String → List String → Char → Reader
step bare w ws c =
    if code c == 32
    then reader bare String.[] (ws ++ w ∷ [])
    else if code c == 39
    then reader single w ws
    else if code c == 92
    then reader escaped w ws
    else reader bare (snoc w c) ws
step single w ws c = if code c == 39 then reader bare w ws else reader single (snoc w c) ws
step escaped w ws c = reader bare (snoc w c) ws

feed : Reader → String → Reader
unfolding step
feed r String.[] = r
feed r (String.◌∷◌ c s) = feed (step r.mode r.word r.words c) s

abbrev finish : Mode → String → List String → Option (List String)
finish bare w ws = some (ws ++ w ∷ [])
finish single w ws = none
finish escaped w ws = none

abbrev ended : Reader → Option (List String)
ended r = finish r.mode r.word r.words

quoted : String → String
quoted String.[] = String.[]
quoted (String.◌∷◌ c s) = append "\\" (String.◌∷◌ c (quoted s))

abbrev fresh : Reader
fresh = reader bare String.[] []

pub backslashes : Shell
unfolding feed quoted
backslashes = record { quote = quoted; parse_argv = λ s. ended (feed fresh s) }

append-snoc : (s : String) (c : Char) (t : String) → append (snoc s c) t ≡ append s (String.◌∷◌ c t)
append-snoc String.[] c t = refl
append-snoc (String.◌∷◌ d s) c t = ap (String.◌∷◌ d) (append-snoc s c t)

append-nil : (s : String) → append s String.[] ≡ s
append-nil String.[] = refl
append-nil (String.◌∷◌ d s) = ap (String.◌∷◌ d) (append-nil s)

feed-append : (r : Reader) (s t : String) → feed r (append s t) ≡ feed (feed r s) t
unfolding feed
feed-append r String.[] t = refl
feed-append r (String.◌∷◌ c s) t = feed-append (step r.mode r.word r.words c) s t

step-plain :
    (w : String) (ws : List String) (c : Char)
    → is_plain (code c) ≡ true
    → step bare w ws c ≡ reader bare (snoc w c) ws
unfolding step
step-plain w ws c p = ground arith

feed-plain :
    (t w : String) (ws : List String)
    → all_codes is_plain t ≡ true
    → feed (reader bare w ws) t ≡ reader bare (append w t) ws
unfolding feed
feed-plain String.[] w ws p = ap (λ v. reader bare v ws) (sym (append-nil w))
feed-plain (String.◌∷◌ c t) w ws p =
    ap (λ r. feed r t) (step-plain w ws c (ground (arith, p)))
    ∙ feed-plain t (snoc w c) ws (ground (arith, p))
    ∙ ap (λ v. reader bare v ws) (append-snoc w c t)

step-single :
    (w : String) (ws : List String) (c : Char)
    → is_unquoted (code c) ≡ true
    → step single w ws c ≡ reader single (snoc w c) ws
unfolding step
step-single w ws c p = ground arith

feed-single :
    (u w : String) (ws : List String)
    → all_codes is_unquoted u ≡ true
    → feed (reader single w ws) (append u "'") ≡ reader bare (append w u) ws
unfolding feed
feed-single String.[] w ws p = ap (λ v. reader bare v ws) (sym (append-nil w))
feed-single (String.◌∷◌ c u) w ws p =
    ap (λ r. feed r (append u "'")) (step-single w ws c (ground (arith, p)))
    ∙ feed-single u (snoc w c) ws (ground (arith, p))
    ∙ ap (λ v. reader bare v ws) (append-snoc w c u)

feed-quoted :
    (u w : String) (ws : List String)
    → feed (reader bare w ws) (quoted u) ≡ reader bare (append w u) ws
unfolding feed quoted
feed-quoted String.[] w ws = ap (λ v. reader bare v ws) (sym (append-nil w))
feed-quoted (String.◌∷◌ c u) w ws =
    feed-quoted u (snoc w c) ws ∙ ap (λ v. reader bare v ws) (append-snoc w c u)

some_inj : (v w : List String) → some v ≡ some w → v ≡ w
some_inj v w h = cc

-- A blank ends the word of a line that can end there.
feed-blank :
    (m : Mode) (w : String) (ws words : List String) (t : String)
    → finish m w ws ≡ some words
    → feed (reader m w ws) (append " " t) ≡ feed (reader bare String.[] words) t
unfolding feed
feed-blank bare w ws words t h = ap (λ v. feed (reader bare String.[] v) t) (some_inj _ _ h)
feed-blank single w ws words t h = cc
feed-blank escaped w ws words t h = cc

-- A line, a blank and a text that is read as one word.
added :
    (line t u : String) (words : List String)
    → ended (feed fresh line) ≡ some words
    → feed (reader bare String.[] words) t ≡ reader bare u words
    → ended (feed fresh (append line (append " " t))) ≡ some (words ++ u ∷ [])
added line t u words h e =
    let r = feed fresh line in
    ap ended
      (feed-append fresh line (append " " t) ∙ feed-blank r.mode r.word r.words words t h ∙ e)

pub backslashes-IsShell : IsShell backslashes
unfolding feed backslashes
backslashes-IsShell = record {
  word = λ t p. ap ended (feed-plain t String.[] [] p);
  plain = λ line t words h p. added line t t words h (feed-plain t String.[] words p);
  single = λ line t u words h p q.
      added line (append t (append "'" (append u "'"))) (append t u) words h (
        feed-append (reader bare String.[] words) t (append "'" (append u "'"))
        ∙ ap (λ r. feed r (append "'" (append u "'"))) (feed-plain t String.[] words p)
        ∙ feed-single u t words q);
  quoted = λ line t u words h p. added line (append t (quoted u)) (append t u) words h (
      feed-append (reader bare String.[] words) t (quoted u)
      ∙ ap (λ r. feed r (quoted u)) (feed-plain t String.[] words p)
      ∙ feed-quoted u t words);
}
