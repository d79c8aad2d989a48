-- ===== src/App/Server/Laws.antt =====
-- A round of the server against what the kbufs hold.
use kernel_code.Prelude.{ℕ, min, List, [], ◌∷◌, take, drop, length, if◌then◌else◌}
use kernel_code.Kbuf.Pipe
use kernel_code.Kbuf.Buffer.{contents}
use kernel_code.App.Kbuf.{text_of}
use kernel_code.App.Server.{Line, Kbufs, Event, among}

-- The line for a kbuf that holds `q`: its first 511 bytes.
abbrev pub line_for : List ℕ → Line
line_for q = (min 511 (length q), text_of (take 511 q))

-- The lines for the events, in their order.
abbrev pub lines_for : Kbufs → List Event → List Line
lines_for kbufs [] = []
lines_for kbufs (e ∷ es) = line_for (contents (kbufs e.fd).buffer) ∷ lines_for kbufs es

-- What each kbuf holds after the events were served.
abbrev pub left_after : Kbufs → List Event → ℕ → List ℕ
left_after kbufs es i = let q = contents (kbufs i).buffer in if among i es then drop 511 q else q
