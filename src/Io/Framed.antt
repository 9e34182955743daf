-- ===== src/Io/Framed.antt =====
-- What lib/IO.py's ls writes around a listing.
use tsi.Base.{◌≡◌, none, some, List, ◌++◌, text_eq}
use tsi.Base.Text.{Text, txt}
use tsi.Connector.{Connector}
use tsi.Io.Listing.{Walk}

-- More has been written, and nothing has been read.
abbrev pub Grown : Connector → Connector → Type 0
Grown c d = (d.control_in ≡ c.control_in) × (body : Text) × (d.control_out ≡ c.control_out ++ body)

abbrev Grows : Connector → Walk → Type 0
Grows c none = Unit
Grows c (some (r, d)) = Grown c d

-- The text that frames a listing.
abbrev pub listing_of : Text → Text
listing_of body = txt "TSI_OK\nSTART_LISTING\n" ++ (body ++ txt "END_LISTING\n")
