-- ===== src/Lib.antt =====
-- OpenFusion, a server for the game FusionFall: the wire protocol, the capped values of a player, the
-- trade between two players, the places where a player keeps items, the vendors, the emails, the
-- buffs, the groups, the lists of buddies, the nanos, and the logins that the login server hands to
-- the shard server.
--
-- A client's bytes reach CNSocket::step (src/core/CNProtocol.cpp), which collects a packet of the
-- size that its first four bytes give, decrypts it and hands it to parsePacket; parsePacket checks
-- its type and sizes against the packet table and calls the handler that the server registered.
-- Answers leave through sendPacket, which frames and encrypts them for the client, and sendData.
-- Trading.cpp, Items.cpp, Vendors.cpp and Email.cpp hold handlers of such packets; they move items
-- between the inventories of players, the places of one player, the vendors and the emails, and
-- taros through the capped values of src/Entities.cpp.
--
-- The files and the code they model:
--   Protocol/Cipher.antt    the namespace CNSocketEncryption of src/core/CNProtocol.cpp and .hpp:
--                           Encrypt_byte_change_A (encrypt_byte_change_a over change_loop), xorData,
--                           createNewKey, encryptData, decryptData
--   Protocol/Packets.antt   isInboundPacketID, validOutVarPacket, validInVarPacket and CNPacketData of
--                           src/core/CNProtocol.hpp, parsePacket of CNProtocol.cpp, PacketDesc of
--                           src/core/Packets.hpp, the buffer sizes of src/core/Defines.hpp
--   Protocol/Socket.antt    class CNSocket: the constructor, the setters, kill, sendData, sendPacket
--   Protocol/Receive.antt   CNSocket::step in its three parts: the read of the size, the read of the
--                           rest, and what it does with a complete packet
--   Protocol/Outbound.antt  isOutboundPacketID and CNSocket::validatingSendPacket
--   Player.antt             struct Player of src/Player.hpp (the fields used), getCap,
--                           getCappedValue, addCapped, subtractCapped and setCapped of Entities.cpp
--   Trading/Exchange.antt   doTrade of src/Trading.cpp, a round of its loop as four parts, and doTrade
--                           of a player with himself
--   Trading/World.antt      the players that the handlers find by getSockFromID (PlayerManager.cpp),
--                           the packets that they send, Database::commitTrade as an effect
--   Trading/Handlers.antt   tradeOffer, tradeOfferAccept, tradeOfferRefusal, tradeOfferCancel,
--                           tradeOfferAbort, tradeConfirm, tradeConfirmCancel
--   Trading/Register.antt   tradeRegisterItem, tradeUnregisterItem, tradeRegisterCash
--   Trading/Dispatch.antt   Trading::init
--   Items.antt              the table of items and the arrays of a player of src/Items.hpp and .cpp,
--                           findFreeSlot
--   Items/Move.antt         itemMoveHandler, itemDeleteHandler and setItemStats of src/Items.cpp
--   Vendors.antt            src/Vendors.cpp: vendorBuy, vendorSell, vendorBuyback, vendorTable,
--                           vendorStart, vendorBuyBattery
--   Vendors/CrocPot.antt    vendorCombineItems of src/Vendors.cpp
--   Logins.antt             src/core/CNShared.cpp: storeLoginMetadata, getLoginMetadata,
--                           pruneLoginMetadata
--   Entity.antt             EntityRef of src/EntityRef.hpp
--   Buffs.antt              class Buff of src/Buffs.hpp and .cpp; calls of its callbacks are values
--   Groups.antt             src/Groups.hpp and .cpp: groups of players and NPCs, as a heap of lists of
--                           members: addToGroup, removeFromGroup, disbandGroup, sendToGroup
--   Groups/Handlers.antt    groupKick, groupTickInfo, requestGroup, refuseGroup, joinGroup,
--                           leaveGroup and Groups::init
--   Email.antt              the handlers of src/Email.cpp that read emails and take from them, and of
--                           src/db/email.cpp getEmailAttachments and getNextEmailIndex
--   Email/Storage.antt      sendEmail of src/db/email.cpp, with its retry and its rollbacks, over the
--                           rows of one email
--   Email/Post.antt         emailSend of src/Email.cpp
--   Buddies.antt            the helpers of src/Buddies.cpp, getSockFromID of src/PlayerManager.cpp
--   Buddies/Handlers.antt   the nine handlers of src/Buddies.cpp and Buddies::init
--   Nanos.antt              src/Nanos.cpp: addNano, summonNano, setNanoSkill, and the handlers that
--                           equip, unequip, summon, tune and charge nanos
--   Common.antt             numbers, integers, lists, memory words and bits for all of them
-- The modules below each of these hold its theorems, tests and examples.
--
-- State is passed explicitly: an operation takes a record and yields a record. A buffer is a list
-- of bytes, and an access outside it is `none` (`fault` inside doTrade); `int` and `int32_t` are
-- integers, `size_t` and keys numbers with their wrap-around written out. Memory words are
-- little-endian. What the operating system decides is an argument: the replies of send() are a
-- list, what recv() returns a function of the number of bytes asked for.
--
-- The sizes are those of the default protocol version, 104: a buffer of 4096 bytes and a packet
-- body of 4088. The loop of Encrypt_byte_change_A runs on fuel, one more than the size that it is
-- called with: each round advances by at least 8 bytes, so it stops before. The other loops of
-- these parts are structural: xorData counts down its rounds, sendData takes one reply a round,
-- doTrade five slots. removeFromGroup runs on fuel 2, since its recursive call is for the last member
-- left and makes none, and disbandGroup on as much as the group has members, since each round removes
-- one; the loops over buffs, logins, items, attachments and buddies are structural.
--
-- Not modelled: CNServer and its poll() loop, the shutdown and close of a socket, the texts that the
-- code logs, sendBuddyList, the recall of nanos and the effects of their skills, and every part of the
-- repository that is not named above. The table Packets::packets, which the compiler fills with
-- struct sizes, and the packet handler are arguments, and so are the tables of items, vendors, the
-- croc pot, skills, tunings and growth, which are loaded from files, the time, the outcome of the roll
-- of the croc pot, the addresses of new groups, the INSERT of SQLite, and what the database returns;
-- the calls that change the database are listed with the packets. The packet handler is assumed to
-- keep the length of the read buffer where that matters, and the structs of the packet table to hold
-- their counts.
mod Common
pub mod Protocol
pub mod Player
pub mod Trading
pub mod Items
pub mod Vendors
pub mod Logins
pub mod Entity
pub mod Buffs
pub mod Groups
pub mod Email
pub mod Buddies
pub mod Nanos
