-- ===== src/Base/Stdio.antt =====
-- The C library's byte streams: what `fgetc`, `fputc` and `fprintf` do to an open file.
use projects_in_c.Base.Tests.{◌==◌, if◌then◌else◌}
use Prim.Native.Nat.{ℕ, ◌-◌}
use mathlib.Core.Option.{Option, none, some}
use mathlib.Core.List.{List, [], ◌∷◌, ◌++◌}
use mathlib.Core.Bool.{Bool, true, false}

-- An open file: the bytes that are still to be read, those that have been written, and how many
-- more the device takes before a write fails.
pub record File : Type 0 where
  pub input : List ℕ
  pub output : List ℕ
  pub room : ℕ

-- `none` is `EOF`.
unfoldable pub fgetc : File → Option ℕ × File
fgetc f = elim f.input [ [] ↦ (none, f) | c ∷ cs ↦ (some c, record f { input = cs }) ]

-- `none` is `EOF`, the result of a failed write.
unfoldable pub fputc : ℕ → File → Option ℕ × File
fputc c f =
    if f.room == 0
    then (none, f)
    else (some c, record f { output = f.output ++ c ∷ []; room = f.room - 1 })

-- An `int` result that is stored in an `unsigned char`: `EOF` becomes 255.
abbrev pub to_uchar : Option ℕ → ℕ
to_uchar none = 255
to_uchar (some c) = c

-- `fprintf` of a text that is made up already: whether the result is not negative, and the file.
unfoldable pub put_text : List ℕ → File → Bool × File
put_text [] f = (true, f)
put_text (c ∷ cs) f =
    let (r, f') = fputc c f in elim r [ none ↦ (false, f') | some _ ↦ put_text cs f' ]

-- `fopen` of a file that is there, for reading.
abbrev pub open_read : List ℕ → File
open_read cs = record { input = cs; output = []; room = 0 }
