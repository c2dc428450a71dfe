-- ===== src/Stream/Assembler.antt =====
-- `AnthropicStreamAssembler` of grok2api/protocol/anthropic_compat.py. The dictionary `_tools` is a list
-- in ascending order of its keys, the order in which its loops read it. The functions that read and
-- repair the JSON text of arguments are a parameter, as is Python's `strip`.
mod Wire
mod Pieces
mod Ship
mod Finish
unfoldable pub use Wire.*
unfoldable pub use Pieces.*
unfoldable pub use Ship.*
unfoldable pub use Finish.*
