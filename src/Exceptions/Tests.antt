-- ===== src/Exceptions/Tests.antt =====
-- The exceptions without a handler.
use multi_process.Base.{◌≡◌, refl, none, replicate}
use multi_process.Exceptions.{HandlerTable, abort, dispatch_exception}

abbrev empty : HandlerTable
empty = replicate 32 none

no_handler : dispatch_exception empty 14 ≡ abort
unfolding dispatch_exception
no_handler = refl
