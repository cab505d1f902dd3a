-- ===== src/Parse/Frame.antt =====
-- What a request body stands for: the words of a command, written by the rule of the protocol.
use coxx.Base.{◌+◌, ◌*◌, ◌≤◌, ◌≡◌, List, [], ◌∷◌, ◌++◌, length, arith, length-append}
use coxx.Base.Bytes.{Bytes, le32}

abbrev pub words : List Bytes → Bytes
words [] = []
words (w ∷ ws) = le32 (length w) ++ (w ++ words ws)

-- The whole body: the count, then each word behind its length.
abbrev pub frame : List Bytes → Bytes
frame ws = le32 (length ws) ++ words ws

pub length-words_cons :
    (w : Bytes) (ws : List Bytes) → length (words (w ∷ ws)) ≡ 4 + length w + length (words ws)
length-words_cons w ws = omega (arith, length-append w (words ws))

-- Each word takes the four bytes of its length at least.
pub length-le-words : (ws : List Bytes) → 4 * length ws ≤ length (words ws)
length-le-words [] = omega arith
length-le-words (w ∷ ws) = omega (arith, length-words_cons w ws, length-le-words ws)
