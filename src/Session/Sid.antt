-- ===== src/Session/Sid.antt =====
-- The packet identifiers of BNCS (crates/bnetcc-proto/src/bncs.rs, module `sid`).
use bnet_command_center.Base.{ℕ}

abbrev pub null : ℕ
null = 0x00

abbrev pub stopadv : ℕ
stopadv = 0x02

abbrev pub clientid : ℕ
clientid = 0x05

abbrev pub startversioning : ℕ
startversioning = 0x06

abbrev pub reportversion : ℕ
reportversion = 0x07

abbrev pub localeinfo : ℕ
localeinfo = 0x12

abbrev pub clientid2 : ℕ
clientid2 = 0x1E

abbrev pub systeminfo : ℕ
systeminfo = 0x2B

abbrev pub gameresult : ℕ
gameresult = 0x2C

abbrev pub getladderdata : ℕ
getladderdata = 0x2E

abbrev pub findladderuser : ℕ
findladderuser = 0x2F

abbrev pub cdkey : ℕ
cdkey = 0x30

abbrev pub cdkey2 : ℕ
cdkey2 = 0x36

abbrev pub getadvlistex : ℕ
getadvlistex = 0x09

abbrev pub enterchat : ℕ
enterchat = 0x0A

abbrev pub checkad : ℕ
checkad = 0x15

abbrev pub clickad : ℕ
clickad = 0x16

abbrev pub getchannellist : ℕ
getchannellist = 0x0B

abbrev pub joinchannel : ℕ
joinchannel = 0x0C

abbrev pub leavechat : ℕ
leavechat = 0x10

abbrev pub chatcommand : ℕ
chatcommand = 0x0E

abbrev pub chatevent : ℕ
chatevent = 0x0F

abbrev pub readuserdata : ℕ
readuserdata = 0x26

abbrev pub writeuserdata : ℕ
writeuserdata = 0x27

abbrev pub flooddetected : ℕ
flooddetected = 0x13

abbrev pub udppingresponse : ℕ
udppingresponse = 0x14

abbrev pub startadvex3 : ℕ
startadvex3 = 0x1C

abbrev pub leavegame : ℕ
leavegame = 0x1F

abbrev pub notifyjoin : ℕ
notifyjoin = 0x22

abbrev pub displayad : ℕ
displayad = 0x21

abbrev pub ping : ℕ
ping = 0x25

abbrev pub geticondata : ℕ
geticondata = 0x2D

abbrev pub getfiletime : ℕ
getfiletime = 0x33

abbrev pub checkdatafile2 : ℕ
checkdatafile2 = 0x3C

abbrev pub logonresponse : ℕ
logonresponse = 0x29

abbrev pub createaccount : ℕ
createaccount = 0x2A

abbrev pub createaccount2 : ℕ
createaccount2 = 0x3D

abbrev pub logonresponse2 : ℕ
logonresponse2 = 0x3A

abbrev pub logonrealmex : ℕ
logonrealmex = 0x3E

abbrev pub queryrealms2 : ℕ
queryrealms2 = 0x40

abbrev pub warcraftgeneral : ℕ
warcraftgeneral = 0x44

abbrev pub netgameport : ℕ
netgameport = 0x45

abbrev pub news_info : ℕ
news_info = 0x46

abbrev pub queryadurl : ℕ
queryadurl = 0x41

abbrev pub setemail : ℕ
setemail = 0x59

abbrev pub friendslist : ℕ
friendslist = 0x65

abbrev pub auth_info : ℕ
auth_info = 0x50

abbrev pub auth_check : ℕ
auth_check = 0x51

abbrev pub auth_accountcreate : ℕ
auth_accountcreate = 0x52

abbrev pub auth_accountlogon : ℕ
auth_accountlogon = 0x53

abbrev pub auth_accountlogonproof : ℕ
auth_accountlogonproof = 0x54
