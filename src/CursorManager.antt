-- ===== src/CursorManager.antt =====
-- `MongoCursorManager`: src/mongodb_cursor.cc, which has no state and whose methods nothing calls.
use mongodb_engine.Base.{Bool, true, false, Option, Bytes}
use mongodb_engine.Handler.Defs.{Cursor}

unfoldable pub init_cursor : Option Cursor → Bytes → Bool
init_cursor cursor table = true

-- The buffer is left as it is.
unfoldable pub fetch_next_row : Bytes → Bool × Bytes
fetch_next_row buf = (false, buf)

-- Whatever cursor there is stays open.
unfoldable pub close_cursor : Option Cursor → Option Cursor
close_cursor cursor = cursor
